-- ===== src/Consumer/NoLoss.antt =====
-- Every message of a run whose parks succeed, portfolio-service/internal/consumer/{kafka,dlq}.go.
use fund_kit.Base.{
  ℕ, false, List, [], ◌∷◌, ◌++◌, ◌≡◌, refl, ap, sym, ◌∙◌, ◌⊎◌, inl, inr, append-nil, append_assoc,
  Option, Result, ok, err, Bool-cases, Option-cases,
}
use fund_kit.Portfolio.Position.{EventError}
use fund_kit.Consumer.{
  Surroundings, Message, Parked, Failure, State, Fetched, fetched, stopped, failed,
  apply_with_retries, commit, dead_letter, dlq_message, process, conclude, run,
}
use fund_kit.Consumer.Safety.{IsCopy, IsParked, dlq_message-IsCopy}
use fund_kit.Consumer.Stream.{Succeeds}

module _ {E S A : Type 0} (handle : E → S → Result EventError A × S) where
  -- One copy more is on the dead-letter topic, or what was there before.
  abbrev Grows : List Parked → List Parked → Type 0
  Grows before after = (more : List Parked) × (after ≡ before ++ more)

  Grows-refl : (ps : List Parked) → Grows ps ps
  Grows-refl ps = ([], sym (append-nil ps))

  Grows-trans : (ps qs rs : List Parked) → Grows ps qs → Grows qs rs → Grows ps rs
  Grows-trans ps qs rs (a, p) (b, q) = (a ++ b, q ∙ ap (λ l. l ++ b) p ∙ append_assoc ps a b)

  dead_letter-IsParked :
      (c : Surroundings) (m : Message) (failure : Failure) (s : State handle)
      → c.park_fails ≡ false
      → IsParked handle m s (dead_letter handle c m failure s)
  unfolding dead_letter commit
  dead_letter-IsParked c m failure s parks = elim (Bool-cases c.commit_fails) [
    | inl stuck ↦
        rw (parks, stuck) (dlq_message c m failure, dlq_message-IsCopy handle c m failure, refl)
    | inr moved ↦
        rw (parks, moved) (dlq_message c m failure, dlq_message-IsCopy handle c m failure, refl)
  ]

  conclude-settled :
      (c : Surroundings) (m : Message) (out : Result EventError A × ℕ × S) (s : State handle)
      → c.park_fails ≡ false
      → ((a : A) × (out.0 ≡ ok a) × ((conclude handle c m out s).parked ≡ s.parked))
        ⊎ IsParked handle m s (conclude handle c m out s)
  unfolding conclude commit
  conclude-settled c m (ok a, attempts, inner') s parks = elim (Bool-cases c.commit_fails) [
    | inl stuck ↦ inl (a, refl, rw stuck refl)
    | inr moved ↦ inl (a, refl, rw moved refl)
  ]
  conclude-settled c m (err x, attempts, inner') s parks =
      inr (dead_letter-IsParked c m _ (record s { inner = inner' }) parks)

module _ {E S A : Type 0} (handle : E → S → Result EventError A × S) (decode : List ℕ → Option E)
    (extra : ℕ) where
  process-settled :
      (c : Surroundings) (m : Message) (s : State handle)
      → c.park_fails ≡ false
      → (Succeeds handle decode extra c m s
          × ((process handle decode extra c m s).parked ≡ s.parked))
        ⊎ IsParked handle m s (process handle decode extra c m s)
  unfolding process
  process-settled c m s parks = elim (Option-cases (decode m.value)) [
    | inl bad ↦ inr (rw (bad, process) (dead_letter-IsParked handle c m _ s parks))
    | inr (e, p) ↦
        elim (conclude-settled handle c m (apply_with_retries handle c e extra s.inner) s parks) [
          | inl (a, q, kept) ↦ inl ((e, a, p, q), rw (p, process) kept)
          | inr parked ↦ inr (rw (p, process) parked)
        ]
  ]

  -- No message of the run meets a failure to park.
  abbrev pub AllPark : List Fetched → Type 0
  AllPark [] = Unit
  AllPark (stopped ∷ fs) = Unit
  AllPark (failed ∷ fs) = AllPark fs
  AllPark (fetched c m ∷ fs) = (c.park_fails ≡ false) × AllPark fs

  abbrev pub IsOn : Message → List Parked → Type 0
  IsOn m ps =
      (before after : List Parked) × (p : Parked) × IsCopy handle m p × (ps ≡ before ++ p ∷ after)

  -- Each message that the run gets is handled when it is its turn, or a copy of it is among what is
  -- parked in the end.
  abbrev pub AllSettled : List Fetched → State handle → List Parked → Type 0
  AllSettled [] s last = Unit
  AllSettled (stopped ∷ fs) s last = Unit
  AllSettled (failed ∷ fs) s last = AllSettled fs s last
  AllSettled (fetched c m ∷ fs) s last =
      (Succeeds handle decode extra c m s ⊎ IsOn m last)
      × AllSettled fs (process handle decode extra c m s) last

  process-Grows :
      (c : Surroundings) (m : Message) (s : State handle)
      → c.park_fails ≡ false
      → Grows handle s.parked (process handle decode extra c m s).parked
  process-Grows c m s parks = elim (process-settled c m s parks) [
    | inl (done, kept) ↦ ([], kept ∙ sym (append-nil s.parked))
    | inr (p, copy, e) ↦ (p ∷ [], e)
  ]

  run-Grows :
      (fs : List Fetched) (s : State handle)
      → AllPark fs
      → Grows handle s.parked (run handle decode extra fs s).parked
  unfolding run
  run-Grows [] s all = Grows-refl handle s.parked
  run-Grows (stopped ∷ fs) s all = Grows-refl handle s.parked
  run-Grows (failed ∷ fs) s all = run-Grows fs s all
  run-Grows (fetched c m ∷ fs) s (parks, all) =
      let t = process handle decode extra c m s in
      Grows-trans handle s.parked t.parked (run handle decode extra fs t).parked
        (process-Grows c m s parks) (run-Grows fs t all)

  settled-IsOn :
      (m : Message) (s : State handle) (t : State handle) (last : List Parked)
      → IsParked handle m s t
      → Grows handle t.parked last
      → IsOn m last
  settled-IsOn m s t last (p, copy, e) (more, f) =
      (s.parked, more, p, copy, f ∙ ap (λ l. l ++ more) e ∙ append_assoc s.parked (p ∷ []) more)

  -- If no message of a run meets a failure to park, each message that the run gets before it stops
  -- is handled when it is its turn, or at the end a copy of it is on the dead-letter topic, with
  -- the same key and body and the original headers first.
  pub run_no_loss :
      (fs : List Fetched) (s : State handle)
      → AllPark fs
      → AllSettled fs s (run handle decode extra fs s).parked
  unfolding run
  run_no_loss [] s all = tt
  run_no_loss (stopped ∷ fs) s all = tt
  run_no_loss (failed ∷ fs) s all = run_no_loss fs s all
  run_no_loss (fetched c m ∷ fs) s (parks, all) =
      let t = process handle decode extra c m s in
      let last = run handle decode extra fs t in
      (
        elim (process-settled c m s parks) [
          | inl (done, kept) ↦ inl done
          | inr parked ↦ inr (settled-IsOn m s t last.parked parked (run-Grows fs t all))
        ],
        run_no_loss fs t all,
      )
