-- ===== src/Consumer/Stream.antt =====
-- A run of the consumer, portfolio-service/internal/consumer/{kafka,dlq}.go.
use fund_kit.Base.{
  ℕ, ◌<◌, true, false, Bool, ◌||◌, subst, ◌&&◌, ◌==◌, eq_refl, String, eqb, List, [], ◌∷◌, ◌++◌,
  ◌≡◌, refl, ◌∙◌, ◌⊎◌, inl, inr, arith, Option, none, some, Result, ok, err,
}
use fund_kit.Portfolio.Position.{EventError}
use fund_kit.Consumer.{
  Offset, offset_of, Surroundings, Message, State, fetched, apply_with_retries, commit, dead_letter,
  process, conclude, run,
}

abbrev pub is_offset : Offset → Offset → Bool
is_offset o x = (o.topic == x.topic) && eqb o.partition x.partition && eqb o.offset x.offset

abbrev pub contains_offset : Offset → List Offset → Bool
contains_offset o [] = false
contains_offset o (x ∷ xs) = is_offset o x || contains_offset o xs

-- The offset at which the group goes on in a partition of a topic after a restart, by what its
-- members have committed.
pub record ConsumerGroup : Type 0 where
  pub resumes_at : List Offset → String → ℕ → ℕ

-- What kafka-go documents: the highest offset that was committed for the partition determines it.
pub record IsLawfulGroup (g : ConsumerGroup) : Type 0 where
  pub past :
      (offsets : List Offset) (o : Offset)
      → contains_offset o offsets ≡ true
      → o.offset < g.resumes_at offsets o.topic o.partition

contains_offset-snoc : (o : Offset) (xs : List Offset) → contains_offset o (xs ++ o ∷ []) ≡ true
contains_offset-snoc o [] = ground (arith, eq_refl o.topic)
contains_offset-snoc o (x ∷ xs) = ground (arith, contains_offset-snoc o xs)

module _ {E S A : Type 0} (handle : E → S → Result EventError A × S) (decode : List ℕ → Option E)
    (extra : ℕ) where
  -- The message cannot be decoded, or its event's attempts end in an error.
  abbrev pub Fails : Surroundings → Message → State handle → Type 0
  Fails c m s =
      (decode m.value ≡ none)
      ⊎ ((e : E) × (x : EventError) × (decode m.value ≡ some e)
          × ((apply_with_retries handle c e extra s.inner).0 ≡ err x))

  -- The message is decoded, and an attempt at its event succeeds.
  abbrev pub Succeeds : Surroundings → Message → State handle → Type 0
  Succeeds c m s =
      (e : E) × (a : A) × (decode m.value ≡ some e)
      × ((apply_with_retries handle c e extra s.inner).0 ≡ ok a)

  conclude-held :
      (c : Surroundings) (m : Message) (out : Result EventError A × ℕ × S) (s : State handle)
      (x : EventError)
      → out.0 ≡ err x
      → c.park_fails ≡ true
      → ((conclude handle c m out s).parked ≡ s.parked)
        × ((conclude handle c m out s).committed ≡ s.committed)
  unfolding conclude dead_letter
  conclude-held c m (ok a, attempts, inner') s x h held = absurd (cc)
  conclude-held c m (err y, attempts, inner') s x h held = rw held (refl, refl)

  process-held :
      (c : Surroundings) (m : Message) (s : State handle)
      → Fails c m s
      → c.park_fails ≡ true
      → ((process handle decode extra c m s).parked ≡ s.parked)
        × ((process handle decode extra c m s).committed ≡ s.committed)
  unfolding process dead_letter
  process-held c m s (inl bad) held = rw (bad, process, held) (refl, refl)
  process-held c m s (inr (e, x, p, q)) held =
      rw (p, process) (conclude-held c m (apply_with_retries handle c e extra s.inner) s x q held)

  conclude-moved :
      (c : Surroundings) (m : Message) (out : Result EventError A × ℕ × S) (s : State handle)
      (a : A)
      → out.0 ≡ ok a
      → c.commit_fails ≡ false
      → ((conclude handle c m out s).parked ≡ s.parked)
        × ((conclude handle c m out s).committed ≡ s.committed ++ offset_of m ∷ [])
  unfolding conclude commit
  conclude-moved c m (ok b, attempts, inner') s a h moves = rw moves (refl, refl)
  conclude-moved c m (err y, attempts, inner') s a h moves = absurd (cc)

  process-moved :
      (c : Surroundings) (m : Message) (s : State handle)
      → Succeeds c m s
      → c.commit_fails ≡ false
      → ((process handle decode extra c m s).parked ≡ s.parked)
        × ((process handle decode extra c m s).committed ≡ s.committed ++ offset_of m ∷ [])
  unfolding process
  process-moved c m s (e, a, p, q) moves =
      rw (p, process) (conclude-moved c m (apply_with_retries handle c e extra s.inner) s a q moves)

  -- If a message fails and cannot be parked, the next one that is fetched is of the same partition,
  -- succeeds and is committed, and its offset is higher, then nothing has been parked by the two,
  -- and a group whose highest committed offset of a partition determines where it goes on in it
  -- goes on behind the first message.
  pub held_message_skipped :
      (g : ConsumerGroup)
      → IsLawfulGroup g
      → (c c' : Surroundings) (m m' : Message) (s : State handle) → Fails c m s
      → c.park_fails ≡ true
      → Succeeds c' m' (process handle decode extra c m s)
      → c'.commit_fails ≡ false
      → m'.topic ≡ m.topic
      → m'.partition ≡ m.partition
      → m.offset < m'.offset
      → let s' = run handle decode extra (fetched c m ∷ fetched c' m' ∷ []) s in
        (s'.parked ≡ s.parked) × (m.offset < g.resumes_at s'.committed m.topic m.partition)
  unfolding run
  held_message_skipped g lawful c c' m m' s fails held succeeds moves same_topic same_partition
        later =
      let t = process handle decode extra c m s in
      let (parked, committed) = process-held c m s fails held in
      let (parked', committed') = process-moved c' m' t succeeds moves in
      let past =
        lawful.past (t.committed ++ offset_of m' ∷ []) (offset_of m')
          (contains_offset-snoc (offset_of m') t.committed) in
      let log = t.committed ++ offset_of m' ∷ [] in
      let behind : m.offset < g.resumes_at log m'.topic m'.partition = omega arith in
      let at_topic = subst (λ k. m.offset < g.resumes_at log k m'.partition) same_topic behind in
      let at_partition =
        subst (λ k. m.offset < g.resumes_at log m.topic k) same_partition at_topic in
      (parked' ∙ parked, rw committed' at_partition)
