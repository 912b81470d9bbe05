-- ===== src/Json/Masks.antt =====
-- What the masks of types in src/lib/lwjson/pk_lwjson.h are said to mean, and that the code does it.
use Prim.Native.Nat.{bit_or}
use vedruino.Base.{ℕ, ◌≡◌, refl, Bool, true, false, ◌||◌, Option, none, some, List, if◌then◌else◌}
use vedruino.Json.{
  JsonType, pk_lwjson_nullable, pk_lwjson_type_ignore, accepts, Parser, check_type,
  pk_lwjson_findt_ex, pk_lwjson_findt,
}

-- The types that a mask can name: lwjson has two for the Booleans.
pub data Kind : Type 0 where
  kind_string kind_int kind_real kind_object kind_array kind_bool kind_null : Kind

-- The masks that the header describes.
pub data Mask : Type 0 where
  only : Kind → Mask
  nullable : Kind → Mask
  ignored : Mask

-- `PK_LWJSON_STRING` and the others.
abbrev pub kind_bits : Kind → ℕ
kind_bits Kind.kind_string = 0
kind_bits Kind.kind_int = 1
kind_bits Kind.kind_real = 2
kind_bits Kind.kind_object = 3
kind_bits Kind.kind_array = 4
kind_bits Kind.kind_bool = 5
kind_bits Kind.kind_null = 7

abbrev pub mask_bits : Mask → ℕ
mask_bits (Mask.only k) = kind_bits k
mask_bits (Mask.nullable k) = bit_or (kind_bits k) pk_lwjson_nullable
mask_bits Mask.ignored = pk_lwjson_type_ignore

abbrev pub has_kind : Kind → JsonType → Bool
has_kind Kind.kind_string JsonType.type_string = true
has_kind Kind.kind_int JsonType.type_num_int = true
has_kind Kind.kind_real JsonType.type_num_real = true
has_kind Kind.kind_object JsonType.type_object = true
has_kind Kind.kind_array JsonType.type_array = true
has_kind Kind.kind_bool JsonType.type_true = true
has_kind Kind.kind_bool JsonType.type_false = true
has_kind Kind.kind_null JsonType.type_null = true
has_kind _ _ = false

-- The types that the header says a mask admits.
abbrev pub admits : Mask → JsonType → Bool
admits (Mask.only k) t = has_kind k t
admits (Mask.nullable k) t = has_kind k t || has_kind Kind.kind_null t
admits Mask.ignored t = true

every_type :
    (P : JsonType → Type 0)
    → P JsonType.type_string
    → P JsonType.type_num_int
    → P JsonType.type_num_real
    → P JsonType.type_object
    → P JsonType.type_array
    → P JsonType.type_true
    → P JsonType.type_false
    → P JsonType.type_null
    → (t : JsonType) → P t
every_type P a b c d e f g h JsonType.type_string = a
every_type P a b c d e f g h JsonType.type_num_int = b
every_type P a b c d e f g h JsonType.type_num_real = c
every_type P a b c d e f g h JsonType.type_object = d
every_type P a b c d e f g h JsonType.type_array = e
every_type P a b c d e f g h JsonType.type_true = f
every_type P a b c d e f g h JsonType.type_false = g
every_type P a b c d e f g h JsonType.type_null = h

accepts-mask_bits : (m : Mask) (t : JsonType) → accepts t (mask_bits m) ≡ admits m t
unfolding accepts
accepts-mask_bits (Mask.only Kind.kind_string) =
    every_type
      (λ t.
        accepts t (mask_bits (Mask.only Kind.kind_string)) ≡ admits (Mask.only Kind.kind_string) t)
      refl refl refl refl refl refl refl refl
accepts-mask_bits (Mask.only Kind.kind_int) =
    every_type
      (λ t. accepts t (mask_bits (Mask.only Kind.kind_int)) ≡ admits (Mask.only Kind.kind_int) t)
      refl refl refl refl refl refl refl refl
accepts-mask_bits (Mask.only Kind.kind_real) =
    every_type
      (λ t. accepts t (mask_bits (Mask.only Kind.kind_real)) ≡ admits (Mask.only Kind.kind_real) t)
      refl refl refl refl refl refl refl refl
accepts-mask_bits (Mask.only Kind.kind_object) =
    every_type
      (λ t.
        accepts t (mask_bits (Mask.only Kind.kind_object)) ≡ admits (Mask.only Kind.kind_object) t)
      refl refl refl refl refl refl refl refl
accepts-mask_bits (Mask.only Kind.kind_array) =
    every_type
      (λ t.
        accepts t (mask_bits (Mask.only Kind.kind_array)) ≡ admits (Mask.only Kind.kind_array) t)
      refl refl refl refl refl refl refl refl
accepts-mask_bits (Mask.only Kind.kind_bool) =
    every_type
      (λ t. accepts t (mask_bits (Mask.only Kind.kind_bool)) ≡ admits (Mask.only Kind.kind_bool) t)
      refl refl refl refl refl refl refl refl
accepts-mask_bits (Mask.only Kind.kind_null) =
    every_type
      (λ t. accepts t (mask_bits (Mask.only Kind.kind_null)) ≡ admits (Mask.only Kind.kind_null) t)
      refl refl refl refl refl refl refl refl
accepts-mask_bits (Mask.nullable Kind.kind_string) =
    every_type
      (λ t.
        accepts t (mask_bits (Mask.nullable Kind.kind_string))
        ≡ admits (Mask.nullable Kind.kind_string) t)
      refl refl refl refl refl refl refl refl
accepts-mask_bits (Mask.nullable Kind.kind_int) =
    every_type
      (λ t.
        accepts t (mask_bits (Mask.nullable Kind.kind_int))
        ≡ admits (Mask.nullable Kind.kind_int) t)
      refl refl refl refl refl refl refl refl
accepts-mask_bits (Mask.nullable Kind.kind_real) =
    every_type
      (λ t.
        accepts t (mask_bits (Mask.nullable Kind.kind_real))
        ≡ admits (Mask.nullable Kind.kind_real) t)
      refl refl refl refl refl refl refl refl
accepts-mask_bits (Mask.nullable Kind.kind_object) =
    every_type
      (λ t.
        accepts t (mask_bits (Mask.nullable Kind.kind_object))
        ≡ admits (Mask.nullable Kind.kind_object) t)
      refl refl refl refl refl refl refl refl
accepts-mask_bits (Mask.nullable Kind.kind_array) =
    every_type
      (λ t.
        accepts t (mask_bits (Mask.nullable Kind.kind_array))
        ≡ admits (Mask.nullable Kind.kind_array) t)
      refl refl refl refl refl refl refl refl
accepts-mask_bits (Mask.nullable Kind.kind_bool) =
    every_type
      (λ t.
        accepts t (mask_bits (Mask.nullable Kind.kind_bool))
        ≡ admits (Mask.nullable Kind.kind_bool) t)
      refl refl refl refl refl refl refl refl
accepts-mask_bits (Mask.nullable Kind.kind_null) =
    every_type
      (λ t.
        accepts t (mask_bits (Mask.nullable Kind.kind_null))
        ≡ admits (Mask.nullable Kind.kind_null) t)
      refl refl refl refl refl refl refl refl
accepts-mask_bits Mask.ignored =
    every_type (λ t. accepts t (mask_bits Mask.ignored) ≡ admits Mask.ignored t) refl refl refl refl
      refl refl refl refl

module _ (p : Parser) where
  -- The token that was found, if the mask admits its type.
  abbrev pub admitted : Mask → Option p.Token → Option p.Token
  admitted m none = none
  admitted m (some tok) = if admits m (p.type tok) then some tok else none

  check_type-admitted :
      (m : Mask) (r : Option p.Token) → check_type p (mask_bits m) r ≡ admitted m r
  unfolding check_type
  check_type-admitted m none = refl
  check_type-admitted m (some tok) = rw (accepts-mask_bits m (p.type tok))

  -- For each mask that the header describes, `pk_lwjson_findt_ex` and `pk_lwjson_findt` give the token that
  -- lwjson finds where the mask, read as the header says, admits its type, and NULL else.
  pub pk_lwjson_findt_ex-admitted :
      (m : Mask) (token : Option p.Token) (path : List ℕ)
      → (pk_lwjson_findt_ex p token path (mask_bits m) ≡ admitted m (p.find_ex token path))
        × (pk_lwjson_findt p path (mask_bits m) ≡ admitted m (p.find_ex none path))
  unfolding pk_lwjson_findt_ex pk_lwjson_findt
  pk_lwjson_findt_ex-admitted m token path =
      (check_type-admitted m (p.find_ex token path), check_type-admitted m (p.find_ex none path))
