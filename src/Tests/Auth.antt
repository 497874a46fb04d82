-- ===== src/Tests/Auth.antt =====
-- The theorems on authentication, applied to concrete data.
use mathlib.Core.List.{Memᴰ}
use rust_http_proxy.Common.{
  ℕ, ◌≡◌, ◌↔◌, refl, Bool, true, false, any, Option, none, some, List, [], ◌∷◌, Result, ok,
}
use rust_http_proxy.Common.Bytes.{Bytes, codes}
use rust_http_proxy.Http.{get}
use rust_http_proxy.Http.Sample.{sample}
use rust_http_proxy.Auth.{is_user, username, basic_key, add_users, check_auth}
use rust_http_proxy.Auth.Table.{Stands}
use rust_http_proxy.Auth.Laws.{check_auth-Stands, check_auth-listed, check_auth-open}

-- In place of base64.
abbrev encode : Bytes → Bytes
encode s = s

encode_injective : (s t : Bytes) → encode s ≡ encode t → s ≡ t
encode_injective s t e = e

abbrev users : List Bytes
users = codes "nobody" ∷ codes "anna:secret" ∷ codes "bert:1234" ∷ []

abbrev headers : sample.HeaderMap
headers = ("proxy-authorization", codes "Basic bert:1234") ∷ []

passed :
    check_auth sample headers "proxy-authorization" (add_users encode users [])
    ≡ ok (some (codes "bert"))
unfolding check_auth add_users rust_http_proxy.Common.Bytes.beq
passed = refl

check_auth-Stands_example :
    (value : Bytes) × (header : Bytes) × (get sample "proxy-authorization" headers ≡ some value)
    × (sample.to_str value ≡ some header)
    × Stands encode users header (codes "bert")
check_auth-Stands_example =
    check_auth-Stands sample encode users headers "proxy-authorization" (codes "bert") passed

bert_listed : Memᴰ (codes "bert:1234") users
bert_listed = Memᴰ.tail (Memᴰ.tail (Memᴰ.head refl))

bert_valid : is_user (codes "bert:1234") ≡ true
unfolding is_user
bert_valid = refl

bert_header : sample.to_str (codes "Basic bert:1234") ≡ some (basic_key encode (codes "bert:1234"))
unfolding basic_key
bert_header = refl

check_auth-listed_example :
    check_auth sample headers "proxy-authorization" (add_users encode users [])
    ≡ ok (some (username (codes "bert:1234")))
check_auth-listed_example =
    check_auth-listed encode encode_injective sample users (codes "bert:1234") headers
      "proxy-authorization" (codes "Basic bert:1234") bert_listed bert_valid refl bert_header

check_auth-open_example :
    (check_auth sample [] "proxy-authorization" (add_users encode (codes "nobody" ∷ []) [])
      ≡ ok none)
    ↔ (any is_user (codes "nobody" ∷ []) ≡ false)
check_auth-open_example =
    check_auth-open sample encode (codes "nobody" ∷ []) [] "proxy-authorization"
