-- ===== src/Client/Messages/Answered.antt =====
-- Which of a server's lines answers a call on stdio.
use surfacelock.Prelude.{
  ℕ, ◌≡◌, refl, ap, ◌∙◌, ◌↔◌, ◌⊎◌, inl, inr, true, false, none, some, List, [], ◌∷◌, ◌++◌, arith,
  Bool-cases, Option-cases, All,
}
use surfacelock.Prelude.Bytes.{Bytes}
use surfacelock.Prelude.Results.{ok}
use surfacelock.External.{External}
use surfacelock.Client.Messages.{
  Message, Ending, id_matches, answer_of, line_message, answering, stdio_call,
}

module _ ⦃ext : External⦄ where
  -- The answer to a call is in the message, without an error.
  pub record Answers (id : ℕ) (line result : Bytes) : Type 0 where
    message : Message
    read : line_message line ≡ some message
    same_id : id_matches message.id id ≡ true
    no_error : message.error ≡ none
    has_result : message.result ≡ result

  -- No message of another id, whatever it holds, is one.
  pub record Passed (id : ℕ) (line : Bytes) : Type 0 where
    skipped : (m : Message) → line_message line ≡ some m → id_matches m.id id ≡ false

  answer_of_iff : (m : Message) (r : Bytes) → answer_of m ≡ ok r ↔ (m.error ≡ none) × (m.result ≡ r)
  unfolding answer_of
  answer_of_iff m r = elim (Option-cases m.error) [
    | inl e ↦ ((λ h. (e, ground (arith, h, e))), λ (a, b). ground (arith, a, b))
    | inr (x, e) ↦ ((λ h. absurd (ground (arith, h, e))), λ (a, b). absurd (ground (arith, a, e)))
  ]

  answering-cases :
      (id : ℕ) (line : Bytes)
      → ((answering line_message id line ≡ none) × Passed id line)
        ⊎ ((m : Message) × (answering line_message id line ≡ some m)
            × (line_message line ≡ some m)
            × (id_matches m.id id ≡ true))
  unfolding answering
  answering-cases id line = elim (Option-cases (line_message line)) [
    | inl e ↦ inl (ground (arith, e), record { skipped = λ m h. absurd (ground (arith, e, h)) })
    | inr (m, e) ↦ elim (Bool-cases (id_matches m.id id)) [
      | inl t ↦ inr (m, ground (arith, e, t), e, t)
      | inr f ↦ inl (ground (arith, e, f), record { skipped = λ n h. ground (arith, e, h, f) })
    ]
  ]

  answering-same :
      (id : ℕ) (line : Bytes) (m : Message)
      → line_message line ≡ some m
      → id_matches m.id id ≡ true
      → answering line_message id line ≡ some m
  unfolding answering
  answering-same id line m reads same = rw (answering, reads, same) refl

  -- The first message of the call's id stands in one of the lines.
  abbrev pub FirstAnswer : ℕ → List Bytes → Bytes → Type 0
  FirstAnswer id lines r =
      (passed : List Bytes) × (line : Bytes) × (rest : List Bytes) × (lines ≡ passed ++ line ∷ rest)
      × All (Passed id) passed
      × Answers id line r

  stdio_call-found :
      (id : ℕ) (ending : Ending) (lines : List Bytes) (r : Bytes)
      → stdio_call id ending lines ≡ ok r
      → FirstAnswer id lines r
  unfolding stdio_call
  stdio_call-found id ending [] r h = cc
  stdio_call-found id ending (line ∷ lines) r h = elim (answering-cases id line) [
    | inl (e, passes) ↦
        let found = stdio_call-found id ending lines r (ground (arith, h, e)) in
        (line ∷ found.0, found.1, found.2, ap (λ xs. line ∷ xs) found.3, (passes, found.4), found.5)
    | inr (m, e, reads, same) ↦
        let parts = (answer_of_iff m r).0 (ground (arith, h, e)) in
        (
          [],
          line,
          lines,
          refl,
          tt,
          record {
            message = m;
            read = reads;
            same_id = same;
            no_error = parts.0;
            has_result = parts.1;
          },
        )
  ]

  stdio_call-finds :
      (id : ℕ) (ending : Ending) (passed : List Bytes) (line : Bytes) (rest : List Bytes)
      (r : Bytes)
      → All (Passed id) passed
      → Answers id line r
      → stdio_call id ending (passed ++ line ∷ rest) ≡ ok r
  unfolding stdio_call
  stdio_call-finds id ending [] line rest r passes a =
      let is = (answer_of_iff a.message r).1 (a.no_error, a.has_result) in
      let reads = a.read in
      let same = a.same_id in
      let e = answering-same id line a.message reads same in ground (arith, e, is)
  stdio_call-finds id ending (p ∷ passed) line rest r passes a = elim (answering-cases id p) [
    | inl (e, ee) ↦
        let found = stdio_call-finds id ending passed line rest r passes.1 a in
        ground (arith, e, found)
    | inr (m, e, reads, same) ↦ absurd (ground (arith, same, passes.0.skipped m reads))
  ]

  -- A call on stdio ends with a result exactly when some line holds a message of the call's id
  -- with that result and no error, and no earlier line holds a message of the call's id.
  pub stdio_call_iff :
      (id : ℕ) (ending : Ending) (lines : List Bytes) (r : Bytes)
      → stdio_call id ending lines ≡ ok r ↔ FirstAnswer id lines r
  stdio_call_iff id ending lines r = (
    stdio_call-found id ending lines r,
    λ (passed, line, rest, is, passes, a).
        ap (stdio_call id ending) is ∙ stdio_call-finds id ending passed line rest r passes a,
  )
