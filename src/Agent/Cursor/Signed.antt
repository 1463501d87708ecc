-- ===== src/Agent/Cursor/Signed.antt =====
-- crates/okx-agent/src/analytics/cursor.rs: a cursor that is read back, and whose cursors are read.
use Prim.Native.String.{String, ◌++◌ as append, len}
use text.Mathlib.Text.{◌==◌ as str_eq}
use text.Mathlib.TextEquality.{eq_iff}
use okx.Prelude.{
  ℕ, false, not, ◌||◌, ◌≤◌, ◌<◌, List, [], ◌∷◌, ◌++◌, some, length, ◌==◌, ltb, ◌≡◌, refl, sym, ◌∙◌,
  ap, subst, All, arith, if◌then◌else◌, Bool-cases, inl, inr,
}
use okx.Prelude.Results.{ok, err, reject, ok_or, bind-ok, ok_inj, ok_or-ok, reject-ok}
use okx.Agent.Cursor.Bytes.{IsByte, fold_difference, difference_self, difference_zero}
use okx.Agent.Cursor.Texts.{split, has_dot, split_part, split_dot}
use okx.Agent.Cursor.Defs.{
  Cursor, Codec, padded, repeated, mac, text_of, encode, decode_parts, of_parts, decode,
}

r1_no_dot : has_dot "r1" ≡ false
unfolding has_dot
r1_no_dot = refl

module _ (codec : Codec) where
  open codec use {to_json, from_json, b64_encode, b64_decode, sha256}

  -- What the packages promise.
  pub record IsCodec : Type 0 where
    pub json : (c : Cursor) {b : List ℕ} → to_json c ≡ ok b → from_json b ≡ some c
    pub json_bytes : (c : Cursor) {b : List ℕ} → to_json c ≡ ok b → All IsByte b
    pub b64 : (b : List ℕ) → All IsByte b → b64_decode (b64_encode b) ≡ some b
    pub no_dot : (b : List ℕ) → has_dot (b64_encode b) ≡ false
    pub decoded_bytes : (t : String) {b : List ℕ} → b64_decode t ≡ some b → All IsByte b
    pub sha256_bytes : (b : List ℕ) → All IsByte (sha256 b)

  text_parts :
      (payload signature : List ℕ)
      → IsCodec
      → split (text_of codec payload signature)
        ≡ "r1" ∷ b64_encode payload ∷ b64_encode signature ∷ []
  text_parts payload signature l =
      let p = b64_encode payload in
      let s = b64_encode signature in
      split_dot "r1" (append p (append "." s)) r1_no_dot
      ∙ ap (λ parts. "r1" ∷ parts) (split_dot p s (l.no_dot payload))
      ∙ ap (λ parts. "r1" ∷ p ∷ parts) (split_part s (l.no_dot signature))

  mac_bytes :
      (key payload : List ℕ) {signature : List ℕ}
      → mac codec key payload ≡ ok signature
      → IsCodec
      → All IsByte signature
  unfolding mac
  mac_bytes key payload {signature} h l = elim (Bool-cases (length key == 32)) [
    | inl e ↦
        let value : sha256
              (padded (repeated 64 92) key ++ sha256 (padded (repeated 64 54) key ++ payload))
            ≡ signature =
          ground (arith, h, e) in
        subst (All IsByte) value (l.sha256_bytes _)
    | inr e ↦ cc (h, e)
  ]

  parts_read :
      (second third : String) (key payload signature : List ℕ) (c : Cursor)
      → b64_decode second ≡ some payload
      → b64_decode third ≡ some signature
      → mac codec key payload ≡ ok signature
      → from_json payload ≡ some c
      → c.version ≡ 1
      → 0 < c.offset
      → decode_parts codec second third key ≡ ok c
  unfolding decode_parts
  parts_read second third key payload signature c a b m j v o =
      ground (arith, a, b, m, j, v, o, difference_self signature)

  -- A cursor of version 1 with an offset that is not zero, encoded in at most 800 bytes, is decoded
  -- under the same key to itself.
  pub encode-decode :
      (c : Cursor) (key : List ℕ) {text : String}
      → IsCodec
      → encode codec c key ≡ ok text
      → c.version ≡ 1
      → 0 < c.offset
      → len text ≤ 800
      → decode codec text key ≡ ok c
  unfolding encode decode of_parts
  encode-decode c key {text} l h v o n =
      let (payload, j, h1) = bind-ok (to_json c) _ h in
      let (signature, m, h2) = bind-ok (mac codec key payload) _ h1 in
      let made : text_of codec payload signature ≡ text = ok_inj h2 in
      let parts = ap split (sym made) ∙ text_parts payload signature l in
      let read =
        parts_read (b64_encode payload) (b64_encode signature) key payload signature c
          (l.b64 payload (l.json_bytes c j)) (l.b64 signature (mac_bytes key payload m l)) m
          (l.json c j) v o in
      ground (arith, parts, read, n)

  -- What was decoded: three parts, of which the last is the signature of the second under the key.
  pub record Signed (raw : String) (key : List ℕ) (c : Cursor) : Type 0 where
    pub second : String
    pub third : String
    pub payload : List ℕ
    pub signature : List ℕ
    pub parts : split raw ≡ "r1" ∷ second ∷ third ∷ []
    pub decoded_payload : b64_decode second ≡ some payload
    pub decoded_signature : b64_decode third ≡ some signature
    pub signed : mac codec key payload ≡ ok signature
    pub read : from_json payload ≡ some c
    pub version : c.version ≡ 1
    pub offset : 0 < c.offset

  -- The three parts of a text that is decoded.
  of_parts-three :
      (parts : List String) (key : List ℕ) {c : Cursor}
      → of_parts codec parts key ≡ ok c
      → (second : String) × (third : String) × (parts ≡ "r1" ∷ second ∷ third ∷ [])
        × (decode_parts codec second third key ≡ ok c)
  unfolding of_parts
  of_parts-three [] key h = cc h
  of_parts-three (first ∷ []) key h = cc h
  of_parts-three (first ∷ second ∷ []) key h = cc h
  of_parts-three (first ∷ second ∷ third ∷ []) key h = elim (Bool-cases (str_eq first "r1")) [
    | inl e ↦ (
      second,
      third,
      ap (λ f. f ∷ second ∷ third ∷ []) ((eq_iff first "r1").0 e),
      rw
          (sym (
            ap (λ b. if not b then err "INVALID_CURSOR" else decode_parts codec second third key)
              e))
          h,
    )
    | inr e ↦ cc (h, e)
  ]
  of_parts-three (first ∷ second ∷ third ∷ fourth ∷ parts) key h = cc h

  decode_three :
      (raw : String) (key : List ℕ) {c : Cursor}
      → decode codec raw key ≡ ok c
      → of_parts codec (split raw) key ≡ ok c
  unfolding decode
  decode_three raw key h = elim (Bool-cases (ltb 800 (len raw))) [
    | inl e ↦ cc (h, e)
    | inr e ↦ cc (h, e)
  ]

  decode_parts-reads :
      (second third : String) (key : List ℕ) {c : Cursor}
      → decode_parts codec second third key ≡ ok c
      → (payload : List ℕ) × (provided : List ℕ) × (expected : List ℕ) × (b64_decode second
          ≡ some payload)
        × (b64_decode third ≡ some provided)
        × (mac codec key payload ≡ ok expected)
        × (length provided ≡ length expected)
        × (fold_difference provided expected 0 ≡ 0)
        × (from_json payload ≡ some c)
        × (c.version ≡ 1)
        × (0 < c.offset)
  unfolding decode_parts
  decode_parts-reads second third key {c} h =
      let (payload, a, h1) = bind-ok (ok_or (b64_decode second) _) _ h in
      let (provided, b, h2) = bind-ok (ok_or (b64_decode third) _) _ h1 in
      let (expected, m, h3) = bind-ok (mac codec key payload) _ h2 in
      let (_, n, h4) = bind-ok (reject (not (length provided == length expected)) _) _ h3 in
      let (_, f, h5) = bind-ok (reject (not (fold_difference provided expected 0 == 0)) _) _ h4 in
      let (cursor, j, h6) = bind-ok (ok_or (from_json payload) _) _ h5 in
      let (_, v, h7) = bind-ok (reject (not (cursor.version == 1) || cursor.offset == 0) _) _ h6 in
      let same : cursor ≡ c = ok_inj h7 in
      let valid = reject-ok (not (cursor.version == 1) || cursor.offset == 0) _ v in
      let differs = reject-ok (not (fold_difference provided expected 0 == 0)) _ f in
      let lengths = reject-ok (not (length provided == length expected)) _ n in
      let version : cursor.version ≡ 1 = ground (arith, valid) in
      let offset : 0 < cursor.offset = ground (arith, valid) in
      (
        payload,
        provided,
        expected,
        ok_or-ok (b64_decode second) _ a,
        ok_or-ok (b64_decode third) _ b,
        m,
        ground (arith, lengths),
        ground (arith, differs),
        ok_or-ok (from_json payload) _ j ∙ ap some same,
        subst (λ (x : Cursor). x.version ≡ 1) same version,
        subst (λ (x : Cursor). 0 < x.offset) same offset,
      )

  -- A cursor that is decoded under a key is the content of a text of three parts, r1, the content
  -- and its signature under that key, and is of version 1 with an offset that is not zero.
  pub decode-Signed :
      (raw : String) (key : List ℕ) {c : Cursor}
      → IsCodec
      → decode codec raw key ≡ ok c
      → Signed raw key c
  decode-Signed raw key {c} l h =
      let (second, third, p, d) = of_parts-three (split raw) key (decode_three raw key h) in
      let (payload, provided, expected, a, b, m, n, f, j, v, o) =
        decode_parts-reads second third key d in
      let (_, same) =
        difference_zero provided expected 0 (l.decoded_bytes third b) (mac_bytes key payload m l) n
          (omega arith) f in
      record {
        second = second;
        third = third;
        payload = payload;
        signature = expected;
        parts = p;
        decoded_payload = a;
        decoded_signature = b ∙ ap some same;
        signed = m;
        read = j;
        version = v;
        offset = o;
      }
