-- ===== src/Agent/Cursor/Defs.antt =====
-- crates/okx-agent/src/analytics/cursor.rs: encoding, decoding and matching of a cursor. JSON
-- (`serde_json`), base64 (`URL_SAFE_NO_PAD`) and SHA-256 are parameters; `none` is an error
-- whose text is not kept.
use Prim.Native.String.{String, ◌++◌ as append, len}
use text.Mathlib.Text.{◌==◌ as str_eq}
use mathlib.Core.Logic.{ite}
use okx.Prelude.{
  ℕ, zero, suc, true, false, not, ◌||◌, List, [], ◌∷◌, ◌++◌, Option, length, ◌==◌, ltb,
  if◌then◌else◌,
}
use okx.Prelude.Results.{Result, ok, err, ◌>>=◌, ◌>>◌, reject, ok_or}
use okx.Protocol.Analytics.{ResearchResultView}
use okx.Agent.Cursor.Bytes.{xor, fold_difference}
use okx.Agent.Cursor.Texts.{split}

pub record Cursor : Type 0 where
  pub version : ℕ
  pub job : String
  pub root : String
  pub leaf : String
  pub view : ResearchResultView
  pub offset : ℕ
  pub instrument : Option ℕ

unfoldable pub ResearchResultView-discrete : Discrete ResearchResultView
ResearchResultView-discrete = hlevel

unfoldable pub new : String → String → String → ResearchResultView → ℕ → Option ℕ → Cursor
new job root leaf view offset instrument = record {
  version = 1;
  job = job;
  root = root;
  leaf = leaf;
  view = view;
  offset = offset;
  instrument = instrument;
}

unfoldable pub matches :
    Cursor → String → String → String → ResearchResultView → Result String (Unit {0})
unfolding ResearchResultView-discrete
matches cursor job root leaf view =
    reject
      (not (str_eq cursor.job job)
        || not (str_eq cursor.root root)
        || not (str_eq cursor.leaf leaf)
        || ite (ResearchResultView-discrete cursor.view view) false true)
      "CURSOR_MISMATCH"

-- `[byte; n]`
abbrev pub repeated : ℕ → ℕ → List ℕ
repeated zero byte = []
repeated (suc n) byte = byte ∷ repeated n byte

-- `for (i, byte) in key.iter().enumerate() { pad[i] ^= byte }`
unfoldable pub padded : List ℕ → List ℕ → List ℕ
padded [] key = []
padded pad [] = pad
padded (p ∷ pad) (byte ∷ key) = xor p byte ∷ padded pad key

-- The packages that a cursor is made with.
pub record Codec : Type 0 where
  pub to_json : Cursor → Result String (List ℕ)
  pub from_json : List ℕ → Option Cursor
  pub b64_encode : List ℕ → String
  pub b64_decode : String → Option (List ℕ)
  pub sha256 : List ℕ → List ℕ

module _ (codec : Codec) where
  open codec use {to_json, from_json, b64_encode, b64_decode, sha256}

  unfoldable pub mac : List ℕ → List ℕ → Result String (List ℕ)
  unfolding padded
  mac key payload =
      if not (length key == 32)
      then err "RESEARCH_CURSOR_KEY_INVALID"
      else (let inner_hash = sha256 (padded (repeated 64 54) key ++ payload) in
          ok (sha256 (padded (repeated 64 92) key ++ inner_hash)))

  -- `format!("r1.{}.{}", ..)`
  abbrev pub text_of : List ℕ → List ℕ → String
  text_of payload signature =
      append "r1" (append "." (append (b64_encode payload) (append "." (b64_encode signature))))

  unfoldable pub encode : Cursor → List ℕ → Result String String
  unfolding mac
  encode cursor key = do
    payload ← to_json cursor
    signature ← mac key payload
    ok (text_of payload signature)

  -- `decode` once the parts are known to be three.
  unfoldable pub decode_parts : String → String → List ℕ → Result String Cursor
  unfolding mac fold_difference
  decode_parts second third key = do
    payload ← ok_or (b64_decode second) "INVALID_CURSOR"
    provided ← ok_or (b64_decode third) "INVALID_CURSOR"
    expected ← mac key payload
    reject (not (length provided == length expected)) "INVALID_CURSOR"
    reject (not (fold_difference provided expected 0 == 0)) "INVALID_CURSOR"
    cursor ← ok_or (from_json payload) "INVALID_CURSOR"
    reject (not (cursor.version == 1) || cursor.offset == 0) "INVALID_CURSOR"
    ok cursor

  -- `parts.len() != 3 || parts[0] != "r1"`
  unfoldable pub of_parts : List String → List ℕ → Result String Cursor
  unfolding decode_parts
  of_parts (first ∷ second ∷ third ∷ []) key =
      if not (str_eq first "r1") then err "INVALID_CURSOR" else decode_parts second third key
  of_parts _ key = err "INVALID_CURSOR"

  unfoldable pub decode : String → List ℕ → Result String Cursor
  unfolding split of_parts
  decode raw key = if ltb 800 (len raw) then err "INVALID_CURSOR" else of_parts (split raw) key
