-- ===== src/Store.antt =====
-- internal/store/store.go: the state document and its lookups.
pub mod Validate
pub mod TextOrder
pub mod Order
pub mod Conflict
use spawn_relay.Common.{
  ℕ, ◌==◌, Bool, true, false, not, ◌&&◌, ◌||◌, List, [], ◌∷◌, ◌++◌, Option, none, some, Text, codes,
  text_eq, is_empty, if◌then◌else◌, find, keep, ◌≡◌, refl,
}

-- `ErrNotFound`, `ErrConflict`, `ErrValidation`, and any other error of an operation. What the
-- message says beyond its kind is left out.
pub data Error : Type 0 where
  not_found conflict validation internal : Error

-- a result and an error: `(value, nil)` or `(_, err)`
pub data Result {ℓ} (A : Type ℓ) : Type ℓ where
  ok : A → Result A
  err : Error → Result A

infixl 5 ◌>>=◌
abbrev pub ◌>>=◌ {ℓ κ} : {A : Type ℓ} {B : Type κ} → Result A → (A → Result B) → Result B
ok a >>= k = k a
err e >>= k = err e

pub >>=-eq-ok {ℓ κ} :
    {A : Type ℓ} {B : Type κ} (m : Result A) (k : A → Result B) {b : B}
    → (m >>= k) ≡ ok b
    → (a : A) × (m ≡ ok a) × (k a ≡ ok b)
>>=-eq-ok (ok a) k h = (a, refl, h)
>>=-eq-ok (err e) k h = cc

abbrev pub proto_tcp : Text
proto_tcp = codes "tcp"

abbrev pub proto_udp : Text
proto_udp = codes "udp"

abbrev pub proto_both : Text
proto_both = codes "both"

-- Times are nanoseconds.
pub record Client : Type 0 where
  pub id : Text
  pub name : Text
  pub token : Text
  pub created_at : ℕ
  pub updated_at : ℕ
  pub last_seen_at : Option ℕ
  pub last_addr : Text
  pub hostname : Text
  pub os : Text
  pub arch : Text
  pub client_version : Text

pub record Forward : Type 0 where
  pub id : Text
  pub client_id : Text
  pub group_id : Text
  pub name : Text
  pub protocol : Text
  pub public_port : ℕ
  pub target_host : Text
  pub target_port : ℕ
  pub enabled : Bool
  pub created_at : ℕ
  pub updated_at : ℕ

pub record ApiToken : Type 0 where
  pub id : Text
  pub name : Text
  pub prefix : Text
  pub token_hash : Text
  pub created_at : ℕ
  pub last_used_at : Option ℕ

pub record Admin : Type 0 where
  pub username : Text
  pub password_hash : Text
  pub salt : Text
  pub iterations : ℕ

pub record Settings : Type 0 where
  pub public_host : Text
  pub firewall : Text
  pub auto_update_clients : Bool

pub record State : Type 0 where
  pub admin : Admin
  pub settings : Settings
  pub clients : List Client
  pub forwards : List Forward
  pub tokens : List ApiToken

-- `HasTCP` and `HasUDP`
unfoldable pub has_tcp : Forward → Bool
has_tcp f = text_eq f.protocol proto_tcp || text_eq f.protocol proto_both

unfoldable pub has_udp : Forward → Bool
has_udp f = text_eq f.protocol proto_udp || text_eq f.protocol proto_both

-- `Same`
unfoldable pub same : Forward → Forward → Bool
same f o =
    text_eq f.client_id o.client_id
    && text_eq f.protocol o.protocol
    && f.public_port == o.public_port
    && text_eq f.target_host o.target_host
    && f.target_port == o.target_port
    && (if f.enabled then o.enabled else not o.enabled)

-- one round of `normalize`
normalize_forward : Forward → Forward
normalize_forward f = if is_empty f.group_id then record f { group_id = f.id } else f

normalize_all : List Forward → List Forward
normalize_all [] = []
normalize_all (f ∷ fs) = normalize_forward f ∷ normalize_all fs

unfoldable pub normalize : State → State
unfolding normalize_forward normalize_all
normalize st = record st { forwards = normalize_all st.forwards }

unfoldable pub client_by_id : State → Text → Option Client
client_by_id st id = find (λ c. text_eq c.id id) st.clients

-- `ConstantTimeCompare(a, b) == 1` says that `a` and `b` are equal.
unfoldable pub client_by_token : State → Text → Option Client
client_by_token st tok = if is_empty tok then none else find (λ c. text_eq c.token tok) st.clients

unfoldable pub forward_by_id : State → Text → Option Forward
forward_by_id st id = find (λ f. text_eq f.id id) st.forwards

unfoldable pub token_by_hash : State → Text → Option ApiToken
token_by_hash st h = find (λ t. text_eq t.token_hash h) st.tokens

unfoldable pub token_by_id : State → Text → Option ApiToken
token_by_id st id = find (λ t. text_eq t.id id) st.tokens

-- the test that `PortConflict` and `groupPortConflict` share: the same port, and a protocol in
-- common
unfoldable pub clash : Forward → Forward → Bool
clash f o = f.public_port == o.public_port && (has_tcp f && has_tcp o || has_udp f && has_udp o)

-- `PortConflict`
unfoldable pub port_conflict : State → Forward → Option Forward
port_conflict st f = find (λ o. not (text_eq o.id f.id) && clash f o) st.forwards
