-- ===== src/Examples/Tokens.antt =====
-- Tokens that spell out their claims and their secret, and hashes that spell out their password.
use fastapi_newyear.Base.{
  ℕ, suc, zero, ◌*◌, ◌≤◌, ◌<◌, ◌≡◌, refl, ◌≢◌, Option, none, some, [], ◌∷◌, Text, text_eq,
  text_eq_refl, text_eq_iff, ltb, if◌then◌else◌, arith,
}
use fastapi_newyear.Models.Accounts.{TokenType, access, refresh}
use fastapi_newyear.Config.{second}
use fastapi_newyear.Env.{Jwt, Bcrypt, Payload, Decoded, decoded, expired, invalid}

abbrev pub of_id : Option (Option ℕ) → ℕ
of_id none = 0
of_id (some none) = 1
of_id (some (some n)) = suc (suc n)

abbrev pub to_id : ℕ → Option (Option ℕ)
to_id zero = none
to_id (suc zero) = some none
to_id (suc (suc n)) = some (some n)

abbrev pub of_type : Option TokenType → ℕ
of_type none = 0
of_type (some access) = 1
of_type (some refresh) = 2

abbrev pub to_type : ℕ → Option TokenType
to_type zero = none
to_type (suc zero) = some access
to_type (suc (suc n)) = some refresh

pub to_id-of_id : (o : Option (Option ℕ)) → to_id (of_id o) ≡ o
to_id-of_id none = refl
to_id-of_id (some none) = refl
to_id-of_id (some (some n)) = refl

pub to_type-of_type : (o : Option TokenType) → to_type (of_type o) ≡ o
to_type-of_type none = refl
to_type-of_type (some access) = refl
to_type-of_type (some refresh) = refl

abbrev pub encode : Payload → Text → Text
encode p secret = of_id p.sub ∷ of_id p.sid ∷ of_id p.jti ∷ of_type p.typ ∷ p.iat ∷ p.exp ∷ secret

abbrev pub decode : ℕ → Text → Text → Decoded
decode now (a ∷ b ∷ c ∷ d ∷ i ∷ e ∷ signature) secret =
    if text_eq secret signature
    then (if ltb now (e * second)
        then decoded (record {
          sub = to_id a;
          sid = to_id b;
          jti = to_id c;
          typ = to_type d;
          iat = i;
          exp = e;
        })
        else expired)
    else invalid
decode now _ secret = invalid

pub decode-encode :
    (now : ℕ) (p : Payload) (secret : Text)
    → p.iat * second ≤ now
    → now < p.exp * second
    → decode now (encode p secret) secret ≡ decoded p
decode-encode now p secret h k = ground (
  arith,
  text_eq_refl secret,
  to_id-of_id p.sub,
  to_id-of_id p.sid,
  to_id-of_id p.jti,
  to_type-of_type p.typ,
)

pub decode_late :
    (now : ℕ) (p : Payload) (secret : Text)
    → p.iat * second ≤ now
    → p.exp * second ≤ now
    → decode now (encode p secret) secret ≡ expired
decode_late now p secret h k = ground (arith, text_eq_refl secret)

pub decode_forged :
    (now : ℕ) (p : Payload) (secret other : Text)
    → secret ≢ other
    → decode now (encode p secret) other ≡ invalid
decode_forged now p secret other ne = ground (arith, text_eq_iff other secret)

pub cons-ne-nil : (a : ℕ) (s : Text) → a ∷ s ≢ []
cons-ne-nil a s h = cc

abbrev pub open_tokens : Jwt
open_tokens = record {
  encode = encode;
  decode = decode;
  encode_nonempty = λ p secret. cons-ne-nil _ _;
  decode-encode = decode-encode;
  decode_late = decode_late;
  decode_forged = decode_forged;
}

abbrev pub plain_hashes : Bcrypt
plain_hashes = record {
  hashpw = λ n password. 36 ∷ password;
  checkpw = λ password hash. text_eq (36 ∷ password) hash;
  checkpw-hashpw = λ n password. text_eq_refl (36 ∷ password);
  hashpw_nonempty = λ n password. cons-ne-nil 36 password;
}
