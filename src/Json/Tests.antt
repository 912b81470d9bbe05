-- ===== src/Json/Tests.antt =====
-- The theorem on src/lib/lwjson/pk_lwjson.c at a concrete input.
use vedruino.Base.{◌≡◌, none, some, [], ◌∷◌}
use vedruino.Json.{JsonType, Parser, pk_lwjson_findt_ex, pk_lwjson_findt}
use vedruino.Json.Masks.{Kind, Mask, pk_lwjson_findt_ex-admitted}

-- A text with one token, which is false.
abbrev one_false : Parser
one_false = record {
  Token = Unit {0};
  type = λ t. JsonType.type_false;
  find_ex = λ from path. some tt;
}

pk_lwjson_findt_ex-admitted_example :
    (pk_lwjson_findt_ex one_false none (b'a' ∷ []) 13 ≡ some tt)
    × (pk_lwjson_findt one_false (b'a' ∷ []) 13 ≡ some tt)
pk_lwjson_findt_ex-admitted_example =
    pk_lwjson_findt_ex-admitted one_false (Mask.nullable Kind.kind_bool) none (b'a' ∷ [])
