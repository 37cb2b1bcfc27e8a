-- ===== src/Values.antt =====
-- The dynamic values that reach the program from outside: JavaScript's `unknown`.
-- A number is a natural number, a negative integer, or any other number (a fraction, an infinity,
-- NaN), which no test of the program accepts. The time of a Date is a count of milliseconds from
-- 1970 on, `none` for an invalid Date; earlier times are left out.
use wake_surfer.Common.{
  has_nul, ◌||◌, ℕ, suc, String, ◌≡◌, Bool, true, false, Option, arith, leb, str_eq, eq_iff,
  if◌then◌else◌,
}

pub data Number : Type 0 where
  whole : ℕ → Number
  -- `negative n` is -(n + 1)
  negative : ℕ → Number
  other : Number

mutual
  pub data Value : Type 0 where
    undefined null array : Value
    boolean : Bool → Value
    number : Number → Value
    string : String → Value
    date : Option ℕ → Value
    object : Fields → Value

  pub data Fields : Type 0 where
    end : Fields
    field : String → Value → Fields → Fields

-- Does U+0000 stand in a text of the value?
unfoldable mutual
  unfolding has_nul

  pub value_has_nul : Value → Bool
  value_has_nul (string s) = has_nul s
  value_has_nul (object fs) = fields_have_nul fs
  value_has_nul _ = false

  pub fields_have_nul : Fields → Bool
  fields_have_nul end = false
  fields_have_nul (field name value fs) =
      has_nul name || (value_has_nul value || fields_have_nul fs)

-- Number.MAX_SAFE_INTEGER
abbrev pub max_safe_integer : ℕ
max_safe_integer = 9007199254740991

-- Number.isSafeInteger
abbrev pub is_safe_integer : Number → Bool
is_safe_integer (whole n) = leb n max_safe_integer
is_safe_integer (negative n) = leb (suc n) max_safe_integer
is_safe_integer other = false

-- value === text
abbrev pub is_string : Value → String → Bool
is_string (string s) t = str_eq s t
is_string _ t = false

pub is_string-eq : (v : Value) (t : String) → is_string v t ≡ true → v ≡ string t
is_string-eq (string s) t h = ground (arith, eq_iff s t)
is_string-eq undefined t h = cc
is_string-eq null t h = cc
is_string-eq array t h = cc
is_string-eq (boolean b) t h = cc
is_string-eq (number n) t h = cc
is_string-eq (date d) t h = cc
is_string-eq (object fs) t h = cc

-- value === null || value === undefined
abbrev pub is_nullish : Value → Bool
is_nullish undefined = true
is_nullish null = true
is_nullish _ = false

-- Object.keys(value).length, for the own enumerable fields in `fs`
abbrev pub count_fields : Fields → ℕ
count_fields end = 0
count_fields (field k v fs) = suc (count_fields fs)

-- value[key], `undefined` if there is no such field
abbrev pub get_field : String → Fields → Value
get_field k end = undefined
get_field k (field j v fs) = if str_eq j k then v else get_field k fs

-- Object.hasOwn(value, key)
abbrev pub has_field : String → Fields → Bool
has_field k end = false
has_field k (field j v fs) = if str_eq j k then true else has_field k fs
