-- ===== src/Encoding/Samples.antt =====
-- A codec that keeps the laws, on which links can be run: a text stands behind its length.
use supernote_task_service.Common.{
  ◌≡◌, refl, ap, Option, none, some, [], ◌∷◌, ◌++◌, Text, ◌>>=◌, length, take, drop,
}
use supernote_task_service.Common.Int.{pos}
use supernote_task_service.Models.{DocumentLink}
use supernote_task_service.Encoding.Links.{
  Json, Members, Codec, IsCodec, link_payload, object, str, int, member, end,
}

abbrev frame : Text → Text → Text
frame t more = length t ∷ (t ++ more)

abbrev unframe : Text → Option (Text × Text)
unframe [] = none
unframe (n ∷ more) = some (take n more, drop n more)

take-length : (t more : Text) → take (length t) (t ++ more) ≡ t
take-length [] more = refl
take-length (x ∷ t) more = ap (λ z. x ∷ z) (take-length t more)

drop-length : (t more : Text) → drop (length t) (t ++ more) ≡ more
drop-length [] more = refl
drop-length (x ∷ t) more = drop-length t more

abbrev write : Json → Text
write
      (object (
        member _
          (str a)
          (member _ (str b) (member _ (str c) (member _ (int (pos n)) (member _ (str d) end)))))) =
    n ∷ frame a (frame b (frame c (frame d [])))
write _ = 0 ∷ []

abbrev parse : Text → Option Json
parse [] = none
parse (n ∷ t) = do
  (a, t1) ← unframe t
  (b, t2) ← unframe t1
  (c, t3) ← unframe t2
  (d, t4) ← unframe t3
  some (
      object
        (link_payload (record { app_name = a; file_id = b; file_path = c; page = n; page_id = d })))

abbrev accept : Members → Option DocumentLink
accept
      (member _
        (str a)
        (member _ (str b) (member _ (str c) (member _ (int (pos n)) (member _ (str d) end))))) =
    some (record { app_name = a; file_id = b; file_path = c; page = n; page_id = d })
accept _ = none

abbrev pub framed : Codec
framed = record {
  b64decode = λ t. some t;
  b64encode = λ b. b;
  utf8_decode = λ b. some b;
  utf8_encode = λ t. t;
  loads = parse;
  dumps = write;
  model_validate = accept;
}

pub framed-IsCodec : IsCodec framed
unfolding link_payload
framed-IsCodec = record {
  b64 = λ b. refl;
  utf8 = λ t. refl;
  json = λ d.
      let last = frame d.page_id [] in
      let path = frame d.file_path last in
      let file = frame d.file_id path in
      rw
        (
          take-length d.app_name file,
          drop-length d.app_name file,
          take-length d.file_id path,
          drop-length d.file_id path,
          take-length d.file_path last,
          drop-length d.file_path last,
          take-length d.page_id [],
        )
        refl;
  b64_some = λ b n. n;
  utf8_some = λ t n. n;
  json_some = λ d e. cc;
  validate = λ d v. refl;
}
