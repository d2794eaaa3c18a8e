-- ===== src/Encoding/Links.antt =====
-- The document links of encoding.py and `_link_payload` of repository.py. Base64, UTF-8 and JSON are
-- Python's, and the validation of a mapping as a `DocumentLink` is Pydantic's: parameters.
use supernote_task_service.Common.{
  ℕ, ◌≡◌, ◌≢◌, ◌∙◌, refl, Bool, true, Option, none, some, List, [], ◌∷◌, Text, ◌>>=◌,
}
use supernote_task_service.Common.Int.{ℤ, pos}
use supernote_task_service.Models.{DocumentLink, valid_link}

mutual
  pub data Json : Type 0 where
    null : Json
    bool : Bool → Json
    int : ℤ → Json
    real : Text → Json
    str : Text → Json
    array : Items → Json
    object : Members → Json

  pub data Items : Type 0 where
    nil : Items
    item : Json → Items → Items

  pub data Members : Type 0 where
    end : Members
    member : Text → Json → Members → Members

-- `none` stands for the ValueError that each of the readers raises.
pub record Codec : Type 0 where
  pub b64decode : Text → Option (List ℕ)
  pub b64encode : List ℕ → Text
  pub utf8_decode : List ℕ → Option Text
  pub utf8_encode : Text → List ℕ
  pub loads : Text → Option Json
  pub dumps : Json → Text
  pub model_validate : Members → Option DocumentLink

abbrev pub app_name_key : Text
app_name_key = b'a' ∷ b'p' ∷ b'p' ∷ b'N' ∷ b'a' ∷ b'm' ∷ b'e' ∷ []

abbrev pub file_id_key : Text
file_id_key = b'f' ∷ b'i' ∷ b'l' ∷ b'e' ∷ b'I' ∷ b'd' ∷ []

abbrev pub file_path_key : Text
file_path_key = b'f' ∷ b'i' ∷ b'l' ∷ b'e' ∷ b'P' ∷ b'a' ∷ b't' ∷ b'h' ∷ []

abbrev pub page_key : Text
page_key = b'p' ∷ b'a' ∷ b'g' ∷ b'e' ∷ []

abbrev pub page_id_key : Text
page_id_key = b'p' ∷ b'a' ∷ b'g' ∷ b'e' ∷ b'I' ∷ b'd' ∷ []

-- `_link_payload`
unfoldable pub link_payload : DocumentLink → Members
link_payload d = member app_name_key (str d.app_name) (
    member file_id_key (str d.file_id) (
      member file_path_key (str d.file_path)
        (member page_key (int (pos d.page)) (member page_id_key (str d.page_id) end))))

-- The documented round trips for the mapping of a link, and that no step makes an empty text of one
-- that is not empty. Pydantic takes back a link that keeps the bounds of its fields.
pub record IsCodec (c : Codec) : Type 0 where
  pub b64 : (b : List ℕ) → c.b64decode (c.b64encode b) ≡ some b
  pub utf8 : (t : Text) → c.utf8_decode (c.utf8_encode t) ≡ some t
  pub json :
      (d : DocumentLink)
      → c.loads (c.dumps (object (link_payload d))) ≡ some (object (link_payload d))
  pub b64_some : (b : List ℕ) → b ≢ [] → c.b64encode b ≢ []
  pub utf8_some : (t : Text) → t ≢ [] → c.utf8_encode t ≢ []
  pub json_some : (d : DocumentLink) → c.dumps (object (link_payload d)) ≢ []
  pub validate :
      (d : DocumentLink) → valid_link d ≡ true → c.model_validate (link_payload d) ≡ some d

abbrev as_object : Json → Option Members
as_object (object m) = some m
as_object _ = none

module _ (c : Codec) where
  unfoldable pub encode_document_link : Members → Text
  encode_document_link m = c.b64encode (c.utf8_encode (c.dumps (object m)))

  unfoldable pub decode_document_link : Option Text → Option Members
  decode_document_link none = none
  decode_document_link (some []) = none
  decode_document_link (some (x ∷ xs)) = do
    bytes ← c.b64decode (x ∷ xs)
    text ← c.utf8_decode bytes
    parsed ← c.loads text
    as_object parsed

  decode_some :
      (t : Text)
      → t ≢ []
      → decode_document_link (some t)
        ≡ (c.b64decode t >>= λ b. c.utf8_decode b >>= λ s. c.loads s >>= as_object)
  unfolding decode_document_link
  decode_some [] n = absurd (n refl)
  decode_some (x ∷ xs) n = refl

  -- A stored document link reads back as the mapping that was written.
  pub decode-encode_document_link :
      (d : DocumentLink)
      → IsCodec c
      → decode_document_link (some (encode_document_link (link_payload d))) ≡ some (link_payload d)
  unfolding encode_document_link
  decode-encode_document_link d law =
      let s = c.dumps (object (link_payload d)) in
      decode_some (c.b64encode (c.utf8_encode s))
        (law.b64_some _ (law.utf8_some _ (law.json_some d)))
      ∙ rw (law.b64 (c.utf8_encode s), law.utf8 s, law.json d) refl
