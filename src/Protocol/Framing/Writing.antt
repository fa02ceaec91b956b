-- ===== src/Protocol/Framing/Writing.antt =====
-- What writeAll puts on the wire (internal/protocol/framing.go).
use mathlib.Core.List.{append_assoc}
use skall.Base.{
  ◌≡◌, ◌≤◌, refl, ap, sym, ◌∙◌, Option, none, some, List, [], ◌∷◌, ◌++◌, arith, length, take, drop,
  take-append-drop, length-drop, All, Result, ok, err,
}
use skall.Bytes.{Bytes}
use skall.Protocol.Framing.{
  FrameError, WriteStep, wrote_suc, failed, put_uint32, write_all, write_payload, write_message_to,
  write_message,
}
use skall.Protocol.Message.{Json, Message, MessageError, marshal_message}

-- Whatever the writer does, what reached the wire is a prefix of the data.
write_all_prefix :
    (steps : List WriteStep) (s : Bytes) → (rest : Bytes) × (s ≡ (write_all steps s).0 ++ rest)
unfolding write_all
write_all_prefix steps [] = ([], refl)
write_all_prefix [] (b ∷ s) = (b ∷ s, refl)
write_all_prefix (failed ∷ steps) (b ∷ s) = (b ∷ s, refl)
write_all_prefix (wrote_suc k ∷ steps) (b ∷ s) =
    let r = write_all_prefix steps (drop k s) in
    (
      r.0,
      ap (λ (t : Bytes). b ∷ t)
          (sym (take-append-drop k s)
            ∙ ap (λ (t : Bytes). take k s ++ t) r.1
            ∙ sym (append_assoc (take k s) (write_all steps (drop k s)).0 r.0)),
    )

-- When writeAll returns nil, all of the data is on the wire.
write_all_ok :
    (steps : List WriteStep) (s : Bytes) {left : List WriteStep}
    → (write_all steps s).1 ≡ some (ok left)
    → (write_all steps s).0 ≡ s
unfolding write_all
write_all_ok steps [] h = refl
write_all_ok [] (b ∷ s) h = ground arith
write_all_ok (failed ∷ steps) (b ∷ s) h = ground arith
write_all_ok (wrote_suc k ∷ steps) (b ∷ s) h =
    ap (λ (t : Bytes). b ∷ t)
      (ap (λ (t : Bytes). take k s ++ t) (write_all_ok steps (drop k s) h) ∙ take-append-drop k s)

abbrev pub Wrote : WriteStep → Type 0
Wrote (wrote_suc k) = Unit
Wrote failed = ⊥

-- A writer that always takes something is done after as many calls as there are bytes.
write_all_total :
    (steps : List WriteStep) (s : Bytes)
    → All Wrote steps
    → length s ≤ length steps
    → (left : List WriteStep) × (write_all steps s ≡ (s, some (ok left)))
unfolding write_all
write_all_total steps [] h p = (steps, refl)
write_all_total [] (b ∷ s) h p = absurd (omega arith)
write_all_total (failed ∷ steps) (b ∷ s) h p = absurd h.0
write_all_total (wrote_suc k ∷ steps) (b ∷ s) h p =
    let r = write_all_total steps (drop k s) h.1 (omega (arith, length-drop k s)) in
    (r.0, ground (arith, r.1, take-append-drop k s))

write_payload_ok :
    (payload : Bytes) (header : Bytes) (r : Bytes × Option (Result FrameError (List WriteStep)))
    {left : List WriteStep}
    → ((steps : List WriteStep) → r.1 ≡ some (ok steps) → r.0 ≡ header)
    → (write_payload payload r).1 ≡ some (ok left)
    → (write_payload payload r).0 ≡ header ++ payload
unfolding write_payload
write_payload_ok payload header (sent, none) whole h = absurd (ground arith)
write_payload_ok payload header (sent, some (err e)) whole h = absurd (ground arith)
write_payload_ok payload header (sent, some (ok steps)) whole h =
    rw (whole steps refl, write_all_ok steps payload h)

-- However a writer cuts what it takes, a WriteMessage that returns nil has put the whole frame on the
-- wire.
pub write_message_to_ok :
    (json : Json) (steps : List WriteStep) (m : Message) {left : List WriteStep}
    → (write_message_to json steps m).1 ≡ some (ok left)
    → write_message json m ≡ ok (write_message_to json steps m).0
unfolding write_message_to write_message
write_message_to_ok json steps m {left} h = by_payload (marshal_message json m) refl
  where
    by_payload :
        (payload : Result MessageError Bytes)
        → marshal_message json m ≡ payload
        → write_message json m ≡ ok (write_message_to json steps m).0
    by_payload (err e) same = absurd (ground (arith, same))
    by_payload (ok b) same =
        let header = write_all steps (put_uint32 (length b)) in
        let sent : (write_payload b header).1 ≡ some (ok left) = ground (arith, same) in
        let whole =
          write_payload_ok b (put_uint32 (length b)) header
            (λ later done. write_all_ok steps (put_uint32 (length b)) done) sent in
        ground (arith, same, whole)
