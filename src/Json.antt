-- ===== src/Json.antt =====
-- src/lib/lwjson/pk_lwjson.c and pk_lwjson.h: the search for a token of a given type. The parser lwjson is a
-- parameter.
pub mod Masks
pub mod Tests
use Prim.Native.Nat.{bit_and}
use vedruino.Base.{
  ℕ, Bool, true, false, not, ◌&&◌, ◌||◌, Option, none, some, List, ◌==◌, M, pure, stop, Halt,
  if◌then◌else◌,
}

-- `lwjson_type_t`, in the order of its numbers.
pub data JsonType : Type 0 where
  type_string type_num_int type_num_real type_object type_array type_true type_false type_null :
      JsonType

abbrev pub type_number : JsonType → ℕ
type_number JsonType.type_string = 0
type_number JsonType.type_num_int = 1
type_number JsonType.type_num_real = 2
type_number JsonType.type_object = 3
type_number JsonType.type_array = 4
type_number JsonType.type_true = 5
type_number JsonType.type_false = 6
type_number JsonType.type_null = 7

-- `lwjsonr_t`; `lwjson_stream` stands for the codes of the streaming parser.
pub data Lwjsonr : Type 0 where
  lwjson_ok lwjson_err lwjson_errjson lwjson_errmem lwjson_errpar lwjson_stream : Lwjsonr

abbrev pub pk_lwjson_ret_handle : {W : Type 0} → Lwjsonr → M W Bool
pk_lwjson_ret_handle Lwjsonr.lwjson_ok = pure true
pk_lwjson_ret_handle Lwjsonr.lwjson_errpar = stop Halt.assert_failed
pk_lwjson_ret_handle Lwjsonr.lwjson_errjson = pure false
pk_lwjson_ret_handle Lwjsonr.lwjson_errmem = pure false
pk_lwjson_ret_handle Lwjsonr.lwjson_err = pure false
pk_lwjson_ret_handle Lwjsonr.lwjson_stream = stop Halt.assert_failed

abbrev pub pk_lwjson_type_mask : ℕ
pk_lwjson_type_mask = 7

abbrev pub pk_lwjson_bool : ℕ
pk_lwjson_bool = 5

abbrev pub pk_lwjson_nullable : ℕ
pk_lwjson_nullable = 8

abbrev pub pk_lwjson_type_ignore : ℕ
pk_lwjson_type_ignore = 16

abbrev is_null : JsonType → Bool
is_null JsonType.type_null = true
is_null _ = false

abbrev is_false : JsonType → Bool
is_false JsonType.type_false = true
is_false _ = false

-- The tests of `pk_lwjson_findt_ex` on the token that was found.
unfoldable pub accepts : JsonType → (type_mask : ℕ) → Bool
accepts type type_mask =
    if not (bit_and type_mask pk_lwjson_type_ignore == 0)
    then true
    else if not (bit_and type_mask pk_lwjson_nullable == 0) && is_null type
    then true
    else if type_number type == bit_and type_mask pk_lwjson_type_mask
    then true
    else is_false type && (bit_and type_mask pk_lwjson_type_mask == pk_lwjson_bool)

-- The tokens and `lwjson_find_ex` of lwjson, in one parsed text; `none` is NULL.
pub record Parser : Type 1 where
  pub Token : Type 0
  pub type : Token → JsonType
  pub find_ex : Option Token → (path : List ℕ) → Option Token

module _ (p : Parser) where
  check_type : (type_mask : ℕ) → Option p.Token → Option p.Token
  unfolding accepts
  check_type type_mask none = none
  check_type type_mask (some tok) = if accepts (p.type tok) type_mask then some tok else none

  unfoldable pub pk_lwjson_findt_ex :
      Option p.Token → (path : List ℕ) → (type_mask : ℕ) → Option p.Token
  unfolding check_type
  pk_lwjson_findt_ex token path type_mask = check_type type_mask (p.find_ex token path)

  unfoldable pub pk_lwjson_findt : (path : List ℕ) → (type_mask : ℕ) → Option p.Token
  unfolding pk_lwjson_findt_ex
  pk_lwjson_findt path type_mask = pk_lwjson_findt_ex none path type_mask
