-- ===== src/Serde/Types.antt =====
-- lib/sd/common/basic_type.h and lib/sd/native/basic_type.hxx: the basic types of the JVM by their codes,
-- a character by its ASCII code, and the flags of a serialized value.
use dshuffle.Prelude.{ℕ, bit_and, Bool, leb, ◌==◌, ◌&&◌, ◌||◌, if◌then◌else◌}
use dshuffle.Prelude.Outcome.{Outcome, ok, undefined}

abbrev pub t_boolean : ℕ
t_boolean = 4

abbrev pub t_char : ℕ
t_char = 5

abbrev pub t_float : ℕ
t_float = 6

abbrev pub t_double : ℕ
t_double = 7

abbrev pub t_byte : ℕ
t_byte = 8

abbrev pub t_short : ℕ
t_short = 9

abbrev pub t_int : ℕ
t_int = 10

abbrev pub t_long : ℕ
t_long = 11

abbrev pub t_object : ℕ
t_object = 12

abbrev pub t_array : ℕ
t_array = 13

abbrev pub t_void : ℕ
t_void = 14

abbrev pub t_illegal : ℕ
t_illegal = 20

unfoldable pub is_primitive_type : ℕ → Bool
is_primitive_type t = leb t_boolean t && leb t t_long

unfoldable pub is_reference_type : ℕ → Bool
is_reference_type t = leb t_object t && leb t t_array

-- A code that no case names runs into `unreachable()`.
unfoldable pub type_size : ℕ → Outcome ℕ
type_size t =
    if (t == t_boolean) || (t == t_byte)
    then ok 1
    else if (t == t_char) || (t == t_short)
    then ok 2
    else if (t == t_int) || (t == t_float)
    then ok 4
    else if (t == t_long) || (t == t_double)
    then ok 8
    else if (t == t_object) || (t == t_array)
    then ok 4
    else if leb t_void t && leb t t_illegal
    then ok 0
    else undefined

unfoldable pub char2type : ℕ → Outcome ℕ
char2type c =
    if c == 66
    then ok t_byte
    else if c == 67
    then ok t_char
    else if c == 68
    then ok t_double
    else if c == 70
    then ok t_float
    else if c == 73
    then ok t_int
    else if c == 74
    then ok t_long
    else if c == 83
    then ok t_short
    else if c == 90
    then ok t_boolean
    else if c == 86
    then ok t_void
    else if c == 76
    then ok t_object
    else if c == 91
    then ok t_array
    else undefined

-- The one character of the signature.
unfoldable pub type2sig : ℕ → Outcome ℕ
type2sig t =
    if t == t_boolean
    then ok 90
    else if t == t_char
    then ok 67
    else if t == t_float
    then ok 70
    else if t == t_double
    then ok 68
    else if t == t_byte
    then ok 66
    else if t == t_short
    then ok 83
    else if t == t_int
    then ok 73
    else if t == t_long
    then ok 74
    else undefined

-- the masks 0x0F and 0xF0, and the flags under them
abbrev pub ctrl_flag_mask : ℕ
ctrl_flag_mask = 15

abbrev pub type_flag_mask : ℕ
type_flag_mask = 240

abbrev pub null_flag : ℕ
null_flag = 1

abbrev pub enum_flag : ℕ
enum_flag = 2

abbrev pub redirect_flag : ℕ
redirect_flag = 3

abbrev pub object_flag : ℕ
object_flag = 16

abbrev pub array_flag : ℕ
array_flag = 32

unfoldable pub is_null_f : ℕ → Bool
is_null_f f = bit_and f ctrl_flag_mask == null_flag

unfoldable pub is_object_f : ℕ → Bool
is_object_f f = bit_and f type_flag_mask == object_flag

unfoldable pub is_array_f : ℕ → Bool
is_array_f f = bit_and f type_flag_mask == array_flag

unfoldable pub is_enum_f : ℕ → Bool
unfolding is_object_f
is_enum_f f = is_object_f f && (bit_and f ctrl_flag_mask == enum_flag)

unfoldable pub is_redirect_f : ℕ → Bool
is_redirect_f f = bit_and f ctrl_flag_mask == redirect_flag
