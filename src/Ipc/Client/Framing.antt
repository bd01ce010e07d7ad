-- ===== src/Ipc/Client/Framing.antt =====
-- common/ipc-client.ts: the lines of the decoded input and its pieces.
use mathlib.Core.List.{append_assoc}
use mesh_talk.Common.{
  ℕ, ◌≡◌, refl, sym, ap, ◌∙◌, inl, inr, Bool, false, ◌&&◌, Option, none, some, List, [], ◌∷◌, ◌++◌,
  Text, nat_beq, nat_eq, contains, Bool-cases, Option-cases, if◌then◌else◌,
}
use mesh_talk.Common.Strings.{trim, is_empty_text, take_lines, put_first, end_line}
use mesh_talk.Ipc.Client.{IpcClient, Response, on_response, on_line, on_lines, on_data, resolve_id}

-- a beginning whose lines are taken
abbrev joined : List Text × Text → List Text × Text → List Text × Text
joined (lines, last) (more, rest) = (lines ++ more, rest)

take_lines_lem :
    (c : ℕ) (t : Text)
    → take_lines (c ∷ t)
      ≡ (if nat_beq c 0x0a then end_line (take_lines t) else put_first c (take_lines t))
unfolding take_lines
take_lines_lem c t = refl

module _ (c : ℕ) (t : Text) (inner : nat_beq c 0x0a ≡ false) where
  put_first-joined :
      (ls : List Text) (last : Text)
      → put_first c (joined (ls, last) (take_lines (last ++ t)))
        ≡ joined (put_first c (ls, last)) (take_lines ((put_first c (ls, last)).1 ++ t))
  put_first-joined [] last = sym (take_lines_lem c (last ++ t) ∙ rw inner refl)
  put_first-joined (l ∷ ls) last = refl

take_lines-append :
    (s t : Text) → take_lines (s ++ t) ≡ joined (take_lines s) (take_lines ((take_lines s).1 ++ t))
take_lines-append [] t = unfold take_lines in refl
take_lines-append (c ∷ s) t =
    let ih = take_lines-append s t in
    elim (Bool-cases (nat_beq c 0x0a)) [
      | inl e ↦ take_lines_lem c (s ++ t) ∙ rw (e, ih, take_lines_lem c s) (rw e refl)
      | inr e ↦
          take_lines_lem c (s ++ t)
          ∙ rw (e, ih, take_lines_lem c s)
              (rw e (put_first-joined c t e (take_lines s).0 (take_lines s).1))
    ]

module _ (parse : Text → Option Response) (faults : ℕ → Response → Bool) where
  -- no line touches the buffer, and none reads it
  resolve_id_buffer :
      (id : Option ℕ) (r : Response) (b : Text) (c : IpcClient)
      → resolve_id parse faults id r (record c { buffer = b })
        ≡ record (resolve_id parse faults id r c) { buffer = b }
  resolve_id_buffer none r b c = refl
  resolve_id_buffer (some id) r b c = elim (Bool-cases (contains id c.pending)) [
    | inl e ↦ rw e refl
    | inr e ↦ rw e refl
  ]

  on_response_buffer :
      (r : Response) (b : Text) (c : IpcClient)
      → on_response parse faults r (record c { buffer = b })
        ≡ record (on_response parse faults r c) { buffer = b }
  unfolding on_response
  on_response_buffer r b c = elim (Bool-cases (r.authenticated && c.connect_resolve)) [
    | inl e ↦ rw e refl
    | inr e ↦ elim (Bool-cases r.is_event) [
      | inl f ↦ rw (e, f) refl
      | inr f ↦ rw (e, f) (resolve_id_buffer r.id (record r { is_event = false }) b c)
    ]
  ]

  on_line_buffer :
      (line b : Text) (c : IpcClient)
      → on_line parse faults line (record c { buffer = b })
        ≡ record (on_line parse faults line c) { buffer = b }
  unfolding on_line
  on_line_buffer line b c = elim (Bool-cases (is_empty_text (trim line))) [
    | inl e ↦ rw e refl
    | inr e ↦ elim (Option-cases (parse line)) [
      | inl n ↦ rw (e, n) refl
      | inr (r, n) ↦ rw (e, n) (on_response_buffer r b c)
    ]
  ]

  on_lines_buffer :
      (lines : List Text) (b : Text) (c : IpcClient)
      → on_lines parse faults lines (record c { buffer = b })
        ≡ record (on_lines parse faults lines c) { buffer = b }
  unfolding on_lines
  on_lines_buffer [] b c = refl
  on_lines_buffer (line ∷ lines) b c =
      ap (on_lines parse faults lines) (on_line_buffer line b c)
      ∙ on_lines_buffer lines b (on_line parse faults line c)

  on_lines-append :
      (lines more : List Text) (c : IpcClient)
      → on_lines parse faults (lines ++ more) c
        ≡ on_lines parse faults more (on_lines parse faults lines c)
  unfolding on_lines
  on_lines-append [] more c = refl
  on_lines-append (line ∷ lines) more c = on_lines-append lines more (on_line parse faults line c)

  -- the lines of a text that is cut in two, with the buffer between
  on_data-append :
      (s t : Text) (c : IpcClient)
      → on_data parse faults (s ++ t) c ≡ on_data parse faults t (on_data parse faults s c)
  unfolding on_data
  on_data-append s t c =
      let first = take_lines (c.buffer ++ s) in
      let second = take_lines (first.1 ++ t) in
      let lines_of = on_lines parse faults in
      ap (λ cut. lines_of cut.0 (record c { buffer = cut.1 }))
        (ap take_lines (sym (append_assoc c.buffer s t)) ∙ take_lines-append (c.buffer ++ s) t)
      ∙ on_lines-append first.0 second.0 (record c { buffer = second.1 })
      ∙ ap (lines_of second.0) (on_lines_buffer first.0 second.1 c)
      ∙ sym (ap (on_data parse faults t) (on_lines_buffer first.0 first.1 c))

  -- the pieces of the input, as they arrive
  abbrev pub on_pieces : List Text → IpcClient → IpcClient
  on_pieces [] c = c
  on_pieces (piece ∷ pieces) c = on_pieces pieces (on_data parse faults piece c)

  -- all pieces at once
  abbrev pub whole : Text → List Text → Text
  whole piece [] = piece
  whole piece (next ∷ pieces) = piece ++ whole next pieces

  -- Decoded input that arrives in pieces, texts of UTF-16 units cut between any two units, leaves
  -- the client in the state and with the outputs, in their order, of the same text in one piece.
  -- Nothing is said of the bytes, which the client decodes piece by piece.
  pub on_pieces-eq :
      (piece : Text) (pieces : List Text) (c : IpcClient)
      → on_pieces (piece ∷ pieces) c ≡ on_data parse faults (whole piece pieces) c
  on_pieces-eq piece [] c = refl
  on_pieces-eq piece (next ∷ pieces) c =
      on_pieces-eq next pieces (on_data parse faults piece c)
      ∙ sym (on_data-append piece (whole next pieces) c)
