-- ===== src/Ssh/Output.antt =====
-- What the bounded buffers of internal/ssh/command.go keep of the output of a command.
use remnanode_setup_bot.Base.{
  ℕ, ◌+◌, ◌-◌, ◌≤◌, true, false, Option, none, some, List, [], ◌∷◌, ◌++◌, ltb, length, take,
  take-all, take-append, length-take, length-append, ◌≡◌, refl, sym, ap, arith, ◌∙◌, Bool-cases,
  inl, inr, ◌⊎◌, if◌then◌else◌,
}
use Prim.Native.Nat.{min}
use mathlib.Core.Path.{subst}
use mathlib.Core.List.{append_assoc, append-nil}
use remnanode_setup_bot.Ssh.{
  CommandResult, Cancellation, WaitResult, finished, exited, lost, conclude, collected, unconcluded,
  LimitedBuffer, new_limited_buffer, write, write_all, Session, Attempt, no_session, not_begun,
  begun, run,
}

-- All that was written, in one piece.
abbrev pub joined : List (List ℕ) → List ℕ
joined [] = []
joined (value ∷ values) = value ++ joined values

-- The buffer holds as much of a text as its limit allows, and whether there was more.
pub record Holds (b : LimitedBuffer) (text : List ℕ) : Type 0 where
  pub content : b.content ≡ take b.limit text
  pub exceeded : b.exceeded ≡ ltb b.limit (length text)

-- What fits of the rest of a text.
rest_fits :
    (limit : ℕ) (text value : List ℕ)
    → take limit text ++ take (limit - length (take limit text)) value ≡ take limit (text ++ value)
rest_fits limit text value =
    ap (λ k. take limit text ++ take k value) (omega (arith, length-take limit text))
    ∙ sym (take-append limit text value)

write-Holds :
    (b : LimitedBuffer) (text value : List ℕ) → Holds b text → Holds (write b value) (text ++ value)
unfolding write
write-Holds b text value h = by_test (Bool-cases (ltb b.limit (length b.content + length value)))
  where
    kept : length b.content ≡ min b.limit (length text)
    kept = ap length h.content ∙ length-take b.limit text

    whole :
        take b.limit text ++ take (b.limit - length b.content) value ≡ take b.limit (text ++ value)
    whole =
        ap (λ c. take b.limit text ++ take (b.limit - length c) value) h.content
        ∙ rest_fits b.limit text value

    by_test :
        (ltb b.limit (length b.content + length value) ≡ true)
          ⊎ (ltb b.limit (length b.content + length value) ≡ false)
        → Holds
            (if ltb b.limit (length b.content + length value)
              then record b {
                content = b.content ++ take (b.limit - length b.content) value;
                exceeded = true;
              }
              else record b { content = b.content ++ value })
            (text ++ value)
    by_test (inl e) = rw e (record {
      content = ap (λ c. c ++ take (b.limit - length b.content) value) h.content ∙ whole;
      exceeded = ground (arith, e, kept, length-append text value);
    })
    by_test (inr e) = rw e (record {
      content =
          ap (λ c. c ++ value) h.content
          ∙ ap (λ v. take b.limit text ++ v)
              (sym (take-all (b.limit - length b.content) value (ground (arith, e))))
          ∙ whole;
      exceeded = ground (arith, e, h.exceeded, kept, length-append text value);
    })

write_all-Holds :
    (values : List (List ℕ)) (b : LimitedBuffer) (text : List ℕ)
    → Holds b text
    → Holds (write_all b values) (text ++ joined values)
unfolding write_all
write_all-Holds [] b text h = subst (Holds b) (sym (append-nil text)) h
write_all-Holds (value ∷ values) b text h =
    subst (Holds (write_all (write b value) values)) (append_assoc text value (joined values))
      (write_all-Holds values (write b value) (text ++ value) (write-Holds b text value h))

write-limit : (b : LimitedBuffer) (value : List ℕ) → (write b value).limit ≡ b.limit
unfolding write
write-limit b value = elim (Bool-cases (ltb b.limit (length b.content + length value))) [
  | inl e ↦ rw e refl
  | inr e ↦ rw e refl
]

write_all-limit :
    (values : List (List ℕ)) (b : LimitedBuffer) → (write_all b values).limit ≡ b.limit
unfolding write_all
write_all-limit [] b = refl
write_all-limit (value ∷ values) b = write_all-limit values (write b value) ∙ write-limit b value

-- However a command's output is split into pieces, a buffer that was made for `limit` bytes ends up
-- with the first `limit` bytes of all of it, and tells exactly whether there were more.
pub write_all-refines :
    (limit : ℕ) (values : List (List ℕ))
    → ((write_all (new_limited_buffer limit) values).content ≡ take limit (joined values))
      × ((write_all (new_limited_buffer limit) values).exceeded
          ≡ ltb limit (length (joined values)))
unfolding new_limited_buffer
write_all-refines limit values =
    let b = new_limited_buffer limit in
    let h =
      write_all-Holds values b []
        (record { content = sym (take-all limit [] (omega arith)); exceeded = ground arith }) in
    let e = write_all-limit values b in
    (
      h.content ∙ ap (λ n. take n (joined values)) e,
      h.exceeded ∙ ap (λ n. ltb n (length (joined values))) e,
    )

module _ (out errors : LimitedBuffer) (result : CommandResult) where
  conclude_outputs :
      (ended : Option Cancellation) (waited : WaitResult)
      → ((conclude out errors ended waited result).result.stdout ≡ result.stdout)
        × ((conclude out errors ended waited result).result.stderr ≡ result.stderr)
  conclude_outputs none waited = (refl, refl)
  conclude_outputs (some why) waited = (refl, refl)

  -- What no error says.
  conclude-none :
      (ended : Option Cancellation) (waited : WaitResult)
      → (conclude out errors ended waited result).error ≡ none
      → (out.exceeded ≡ false)
        × ((errors.exceeded ≡ false)
            × ((conclude out errors ended waited result).result
                ≡ record result { status = some 0 }))
  conclude-none (some why) waited h = absurd (ground (arith, h))
  conclude-none none finished h = (ground (arith, h), (ground (arith, h), refl))
  conclude-none none (exited status) h = absurd (ground (arith, h))
  conclude-none none lost h = absurd (ground (arith, h))

fits : (limit : ℕ) (text : List ℕ) → ltb limit (length text) ≡ false → take limit text ≡ text
fits limit text h = take-all limit text (ground (arith, h))

-- Whatever a command does and however it ends, what is returned of each of its outputs is within the
-- limit of that output.
pub run-bounded :
    (stdout_limit stderr_limit : ℕ) (attempt : Attempt)
    → (length (run stdout_limit stderr_limit attempt).result.stdout ≤ stdout_limit)
      × (length (run stdout_limit stderr_limit attempt).result.stderr ≤ stderr_limit)
unfolding run
run-bounded stdout_limit stderr_limit no_session = (omega arith, omega arith)
run-bounded stdout_limit stderr_limit not_begun = (omega arith, omega arith)
run-bounded stdout_limit stderr_limit (begun session) =
    let (out, _) = write_all-refines stdout_limit session.stdout in
    let (errors, _) = write_all-refines stderr_limit session.stderr in
    let a = collected stdout_limit session.stdout in
    let b = collected stderr_limit session.stderr in
    let (o, e) =
      conclude_outputs a b (unconcluded a b session) session.cancellation session.waited in
    (
      omega (arith, ap length (o ∙ out), length-take stdout_limit (joined session.stdout)),
      omega (arith, ap length (e ∙ errors), length-take stderr_limit (joined session.stderr)),
    )

-- A command that returns no error wrote no more than the limits, its result holds all that it wrote,
-- and its exit status is 0.
pub run_complete :
    (stdout_limit stderr_limit : ℕ) (session : Session)
    → (run stdout_limit stderr_limit (begun session)).error ≡ none
    → (run stdout_limit stderr_limit (begun session)).result ≡ record {
      stdout = joined session.stdout;
      stderr = joined session.stderr;
      status = some 0;
      timed_out = session.timed_out;
    }
unfolding run
run_complete stdout_limit stderr_limit session h =
    let (out, more_out) = write_all-refines stdout_limit session.stdout in
    let (errors, more_errors) = write_all-refines stderr_limit session.stderr in
    let a = collected stdout_limit session.stdout in
    let b = collected stderr_limit session.stderr in
    let (o, (e, r)) =
      conclude-none a b (unconcluded a b session) session.cancellation session.waited h in
    let whole_out = out ∙ fits stdout_limit _ (sym more_out ∙ o) in
    let whole_errors = errors ∙ fits stderr_limit _ (sym more_errors ∙ e) in
    r ∙ cc (whole_out, whole_errors)
