-- ===== src/Agent/Cursor/Tests.antt =====
-- crates/okx-agent/src/analytics/cursor.rs: a cursor that is encoded and decoded. The packages are
-- replaced by small ones: a byte is written as that many letters a and a letter b, the only cursor
-- with a JSON text is `sample`, and the digest is the same for all.
use Prim.Native.Char.{Char, code}
use Prim.Native.String.{String, char_at, len}
use mathlib.Core.Logic.{ite}
use okx.Prelude.{
  ℕ, zero, suc, ◌+◌, ◌≤◌, ◌<◌, false, List, [], ◌∷◌, Option, none, some, ◌≡◌, refl, sym, ◌∙◌, ap,
  subst, ◌==◌, ltb, All, arith, if◌then◌else◌, Bool-cases, inl, inr,
}
use native.Mathlib.Decide.{ℕ_discrete}
use okx.Prelude.Maps.{String-discrete}
use okx.Prelude.Results.{ok, err}
use okx.Protocol.Analytics.{trades}
use okx.Agent.Cursor.Bytes.{IsByte, xor_bits}
use okx.Agent.Cursor.Texts.{has_dot}
use okx.Agent.Cursor.Defs.{
  Cursor, ResearchResultView-discrete, Codec, repeated, padded, mac, encode, decode, new,
}
use okx.Agent.Cursor.Signed.{IsCodec, Signed, encode-decode, decode-Signed}

abbrev a : Char
a = char_at "a" 0

abbrev b : Char
b = char_at "b" 0

abbrev put : ℕ → String → String
put zero s = String.◌∷◌ b s
put (suc n) s = String.◌∷◌ a (put n s)

abbrev put_all : List ℕ → String
put_all [] = ""
put_all (n ∷ ns) = put n (put_all ns)

abbrev in_front : ℕ → Option (List ℕ) → Option (List ℕ)
in_front n none = none
in_front n (some ns) = if ltb n 256 then some (n ∷ ns) else none

-- The bytes of a text, of which the first was seen n times already.
abbrev take_all : ℕ → String → Option (List ℕ)
take_all n String.[] = some []
take_all n (String.◌∷◌ c s) =
    let more = take_all (suc n) s in
    let done = in_front n (take_all 0 s) in if code c == 97 then more else done

take_put : (n k : ℕ) (s : String) → take_all k (put n s) ≡ in_front (n + k) (take_all 0 s)
take_put zero k s = ap (λ m. in_front m (take_all 0 s)) (omega arith)
take_put (suc n) k s = take_put n (suc k) s ∙ ap (λ m. in_front m (take_all 0 s)) (omega arith)

take_all-put_all : (ns : List ℕ) → All IsByte ns → take_all 0 (put_all ns) ≡ some ns
take_all-put_all [] h = refl
take_all-put_all (n ∷ ns) h =
    take_put n 0 (put_all ns) ∙ ground (arith, take_all-put_all ns h.1, h.0)

put_no_dot : (n : ℕ) (s : String) → has_dot s ≡ false → has_dot (put n s) ≡ false
unfolding has_dot
put_no_dot zero s h = h
put_no_dot (suc n) s h = put_no_dot n s h

put_all_no_dot : (ns : List ℕ) → has_dot (put_all ns) ≡ false
unfolding has_dot
put_all_no_dot [] = refl
put_all_no_dot (n ∷ ns) = put_no_dot n (put_all ns) (put_all_no_dot ns)

in_front-bytes :
    (n : ℕ) (o : Option (List ℕ)) {ns : List ℕ}
    → in_front n o ≡ some ns
    → ((ms : List ℕ) → o ≡ some ms → All IsByte ms)
    → All IsByte ns
in_front-bytes n none h f = cc h
in_front-bytes n (some ms) {ns} h f = elim (Bool-cases (ltb n 256)) [
  | inl e ↦
      let same : n ∷ ms ≡ ns = ground (arith, h, e) in
      subst (All IsByte) same (ground (arith, e), f ms refl)
  | inr e ↦ cc (h, e)
]

take_all-bytes : (n : ℕ) (s : String) {ns : List ℕ} → take_all n s ≡ some ns → All IsByte ns
take_all-bytes n String.[] {ns} h = let e : [] ≡ ns = cc h in subst (All IsByte) e tt
take_all-bytes n (String.◌∷◌ c s) {ns} h = elim (Bool-cases (code c == 97)) [
  | inl e ↦ take_all-bytes (suc n) s (ground (arith, h, e))
  | inr e ↦ in_front-bytes n (take_all 0 s) (ground (arith, h, e)) (λ ms k. take_all-bytes 0 s k)
]

abbrev sample : Cursor
sample = new "job" "root" "leaf" trades 5 none

Cursor-discrete : Discrete Cursor
unfolding ResearchResultView-discrete String-discrete
Cursor-discrete = hlevel (ResearchResultView-discrete, String-discrete, ℕ_discrete)

abbrev codec : Codec
codec = record {
  to_json = λ c. ite (Cursor-discrete c sample) (ok (1 ∷ [])) (err "no JSON");
  from_json = λ bytes. some sample;
  b64_encode = put_all;
  b64_decode = take_all 0;
  sha256 = λ bytes. repeated 32 7;
}

abbrev key : List ℕ
key = repeated 32 1

sample_json : (c : Cursor) {b : List ℕ} → codec.to_json c ≡ ok b → (c ≡ sample) × (1 ∷ [] ≡ b)
sample_json c h = elim (Cursor-discrete c sample) [
  | yes e ↦ ground (arith, h, e)
  | no n ↦ ground (arith, h, n)
]

codec-IsCodec : IsCodec codec
codec-IsCodec = record {
  json = λ c h. ap some (sym (sample_json c h).0);
  json_bytes = λ c h. subst (All IsByte) (sample_json c h).1 (omega arith, tt);
  b64 = take_all-put_all;
  no_dot = put_all_no_dot;
  decoded_bytes = λ t h. take_all-bytes 0 t h;
  sha256_bytes = λ bytes. ground arith;
}

abbrev text : String
text = elim (encode codec sample key) [ ok t ↦ t | err e ↦ e ]

encoded : encode codec sample key ≡ ok text
unfolding encode mac padded xor_bits new Cursor-discrete ℕ_discrete
encoded = refl

short : len text ≤ 800
unfolding encode mac padded xor_bits new Cursor-discrete ℕ_discrete
short = omega arith

sample_version : sample.version ≡ 1
unfolding new
sample_version = refl

sample_offset : 0 < sample.offset
unfolding new
sample_offset = omega arith

encode-decode_example : decode codec text key ≡ ok sample
encode-decode_example =
    encode-decode codec sample key codec-IsCodec encoded sample_version sample_offset short

decode-Signed_example : Signed codec text key sample
decode-Signed_example = decode-Signed codec text key codec-IsCodec encode-decode_example
