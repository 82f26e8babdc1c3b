-- ===== src/Http/Response/Delivery.antt =====
-- What a client receives from writeJSON: one status line, the JSON content type, the encoded body.
use text.Mathlib.TextLemmas.{append-nil}
use micro_services.Base.{
  ℕ, suc, String, ◌≡◌, refl, ◌∙◌, sym, ap, Option, none, some, List, [], ◌∷◌, ◌<>◌, <>_assoc, arith,
  string_eq, ==_iff, ==_refl,
}
use micro_services.Errors.{Error}
use micro_services.Http.Writer.{
  Header, header_set, header_get, ResponseWriter, set_header, write_header, write, write_all,
}
use micro_services.Http.Response.{
  Response, Encoder, content_type, application_json, encode_failed, after_encode, write_json,
}

pub header_get-set : (k v : String) (h : Header) → header_get k (header_set k v h) ≡ some v
unfolding header_get header_set
header_get-set k v [] = rw ==_refl
header_get-set k v ((j, u) ∷ h) = ground (arith, ==_iff j k, ==_refl k, header_get-set k v h)

abbrev pub concat : List String → String
concat [] = ""
concat (s ∷ ss) = s <> concat ss

-- The writer after the status line, with `s` added to the body.
abbrev with_body : ResponseWriter → String → ResponseWriter
with_body w s = record w { body = w.body <> s }

write_of_sent :
    (s : String) (w : ResponseWriter) {code : ℕ} → w.status ≡ some code → write s w ≡ with_body w s
unfolding write
write_of_sent s w h = ground arith

pub write_all_lem :
    (ss : List String) (w : ResponseWriter) {code : ℕ}
    → w.status ≡ some code
    → write_all ss w ≡ with_body w (concat ss)
unfolding write_all
write_all_lem [] w h = ap (λ (b : String). record w { body = b }) (sym (append-nil w.body))
write_all_lem (s ∷ ss) w h = rw (write_of_sent s w h, write_all_lem ss (with_body w s) h, <>_assoc)

-- What the client reads when the handler had sent nothing before.
pub record IsDelivered (w : ResponseWriter) (code : ℕ) (text : String) : Type 0 where
  pub status : w.status ≡ some code
  pub json : header_get content_type w.sent ≡ some application_json
  pub body : w.body ≡ text

-- The text that follows the encoder's chunks where it failed.
abbrev pub failure_note : Option Error → String
failure_note none = ""
failure_note (some _) = encode_failed

write_header_first :
    (code : ℕ) (w : ResponseWriter)
    → w.status ≡ none
    → write_header code w ≡ record w { status = some code; sent = w.header }
unfolding write_header
write_header_first code w h = ground arith

write_header_again :
    (code : ℕ) (w : ResponseWriter) {first : ℕ}
    → w.status ≡ some first
    → write_header code w ≡ record w { superfluous = suc w.superfluous }
unfolding write_header
write_header_again code w h = ground arith

module _ {T : Type 0} (encode : Encoder T) where
  after_encode-IsDelivered :
      (w : ResponseWriter) (err : Option Error) {code : ℕ} {text : String}
      → IsDelivered w code text
      → IsDelivered (after_encode encode err w) code (text <> failure_note err)
  after_encode-IsDelivered w none {text} d = record {
    status = d.status;
    json = d.json;
    body = d.body ∙ sym (append-nil text);
  }
  after_encode-IsDelivered w (some e) d =
      rw
        (
          write_header_again 500 w d.status,
          write_of_sent encode_failed (record w { superfluous = suc w.superfluous }) d.status,
        )
        (record { status = d.status; json = d.json; body = ap (λ t. t <> encode_failed) d.body })

  -- On a writer to which nothing was sent, writeJSON sends the given status and the JSON content
  -- type, and nothing replaces that status: where the encoder fails, its chunks are followed by the
  -- failure note, and the status stays the first one.
  pub write_json-IsDelivered :
      (w : ResponseWriter) (code : ℕ) (msg : Response T)
      → w.status ≡ none
      → IsDelivered
          (write_json encode w code msg)
          code
          ((w.body <> concat (encode msg).0) <> failure_note (encode msg).1)
  unfolding write_json
  write_json-IsDelivered w code msg h = after_encode-IsDelivered _ (encode msg).1 (
      rw
        (
          write_header_first code (set_header content_type application_json w) h,
          write_all_lem (encode msg).0
              (record w {
                header = header_set content_type application_json w.header;
                status = some code;
                sent = header_set content_type application_json w.header;
              })
              refl,
        )
        (record {
          status = refl;
          json = header_get-set content_type application_json w.header;
          body = refl;
        }))
