-- ===== src/Results/FieldInfo.antt =====
-- include/amy/field_info.hpp: what it answers of a MYSQL_FIELD.
use amy.Prelude.{ℕ, Bool, not, ◌||◌, ◌==◌, take, bit_and}
use amy.Client.{Bytes, FieldDef}

-- The bits of `flags` in the headers of the client library.
pub record FieldFlags : Type 0 where
  pub not_null_flag : ℕ
  pub pri_key_flag : ℕ
  pub unique_key_flag : ℕ
  pub multiple_key_flag : ℕ
  pub unsigned_flag : ℕ
  pub zerofill_flag : ℕ
  pub binary_flag : ℕ
  pub auto_increment_flag : ℕ
  pub no_default_value_flag : ℕ

abbrev has_flag : ℕ → FieldDef → Bool
has_flag mask f = not (bit_and f.flags mask == 0)

-- To read beyond the bytes at the address is undefined, and stops here.
unfoldable pub name : FieldDef → Bytes
name f = take f.name_length f.name

abbrev pub length : FieldDef → ℕ
length f = f.length

abbrev pub max_length : FieldDef → ℕ
max_length f = f.max_length

module _ (M : FieldFlags) where
  unfoldable pub is_nullable : FieldDef → Bool
  is_nullable f = not (has_flag M.not_null_flag f)

  unfoldable pub is_primary_key : FieldDef → Bool
  is_primary_key = has_flag M.pri_key_flag

  unfoldable pub is_unique_key : FieldDef → Bool
  is_unique_key = has_flag M.unique_key_flag

  unfoldable pub is_multiple_key : FieldDef → Bool
  is_multiple_key = has_flag M.multiple_key_flag

  unfoldable pub is_unsigned : FieldDef → Bool
  is_unsigned = has_flag M.unsigned_flag

  unfoldable pub is_zerofill : FieldDef → Bool
  is_zerofill = has_flag M.zerofill_flag

  unfoldable pub is_binary : FieldDef → Bool
  is_binary = has_flag M.binary_flag

  unfoldable pub is_auto_increment : FieldDef → Bool
  is_auto_increment = has_flag M.auto_increment_flag

  unfoldable pub has_default_value : FieldDef → Bool
  unfolding is_nullable is_auto_increment
  has_default_value f =
      is_nullable f || is_auto_increment f || not (has_flag M.no_default_value_flag f)
