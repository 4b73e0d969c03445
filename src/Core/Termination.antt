-- ===== src/Core/Termination.antt =====
-- When the loop of process_list_requests ends.
use psar_dsm.Prelude.{
  ℕ, ◌<◌, ◌≡◌, ◌≢◌, refl, ◌⊎◌, ◌↔◌, inl, inr, Bool, true, false, some, List, [], ◌∷◌, ◌++◌, ◌==◌,
  Run, ok, exit, out_of_fuel, Ends, length, Bool-cases,
}
use psar_dsm.Memory.{Request, Page, prot_read, may_read, may_write}
use psar_dsm.Message.{Event, Surroundings, broken}
use psar_dsm.Core.{giveup_localpage, requests_loop}
use psar_dsm.Core.Serve.{directory, give, outcome, requests_loop-outcome}

abbrev pub OnlyReaders : List Request → Type 0
OnlyReaders [] = Unit
OnlyReaders (req ∷ rest) = ((req.rights == prot_read) ≡ true) × OnlyReaders rest

abbrev pub WriterFirst : List Request → Type 0
WriterFirst [] = ⊥
WriterFirst (req ∷ rest) = ((req.rights == prot_read) ≡ false) × (may_write req.rights ≡ true)

-- All that wait want to read, or the first wants to write and nobody reads.
abbrev pub Settles : List Request → (readers : List ℕ) → Type 0
Settles rs readers = OnlyReaders rs ⊎ ((readers ≡ []) × WriterFirst rs)

abbrev pub Returns : {A : Type 0} → Run A → Type 0
Returns = Ends (λ _. Unit)

nonempty_end : (readers : List ℕ) (fd : ℕ) → (readers ++ fd ∷ []) ≢ []
nonempty_end [] fd e = cc
nonempty_end (r ∷ readers) fd e = cc

-- A reader at the head is served, and then listed.
after_reader :
    (req : Request) (rest : List Request) (readers : List ℕ)
    → (req.rights == prot_read) ≡ true
    → Settles rest (readers ++ req.sockfd ∷ []) ↔ Settles (req ∷ rest) readers
after_reader req rest readers read = (to, from)
  where
    to : Settles rest (readers ++ req.sockfd ∷ []) → Settles (req ∷ rest) readers
    to (inl all) = inl (read, all)
    to (inr (none_listed, w)) = absurd (nonempty_end readers req.sockfd none_listed)

    from : Settles (req ∷ rest) readers → Settles rest (readers ++ req.sockfd ∷ [])
    from (inl (_, all)) = inl all
    from (inr (_, (other, _))) = cc

at_writer :
    {A : Type 0} (req : Request) (rest : List Request) (readers : List ℕ) (a : A)
    → (req.rights == prot_read) ≡ false
    → may_write req.rights ≡ true
    → Returns (elim readers [ [] ↦ ok a | _ ∷ _ ↦ out_of_fuel ]) ↔ Settles (req ∷ rest) readers
at_writer req rest [] a other write = (λ _. inr (refl, (other, write)), λ _. tt)
at_writer req rest (r ∷ readers) a other write = (λ h. absurd h, unsettled)
  where
    unsettled : Settles (req ∷ rest) (r ∷ readers) → ⊥
    unsettled (inl (read, _)) = cc
    unsettled (inr (none_listed, _)) = cc

at_refused :
    (req : Request) (rest : List Request) (readers : List ℕ)
    → (req.rights == prot_read) ≡ false
    → may_write req.rights ≡ false
    → Settles (req ∷ rest) readers
    → ⊥
at_refused req rest readers other bad (inl (read, _)) = cc
at_refused req rest readers other bad (inr (_, (_, write))) = cc

module _ (env : Surroundings) (p : Page) where
  outcome_empty :
      (b : Bool) (readers : List ℕ) (s : Bool) (t : List Event)
      → Returns (outcome env p [] b readers s t)
  unfolding outcome
  outcome_empty b readers s t = tt

  outcome_reader :
      (req : Request) (rest : List Request) (b : Bool) (readers : List ℕ) (s : Bool)
      (t : List Event)
      → (req.rights == prot_read) ≡ true
      → outcome env p (req ∷ rest) b readers s t
        ≡ outcome env p rest b (readers ++ req.sockfd ∷ []) s (give env p req.sockfd req.rights t)
  unfolding outcome
  outcome_reader req rest b readers s t read = rw read refl

  outcome_writer :
      (req : Request) (rest : List Request) (b : Bool) (readers : List ℕ) (s : Bool)
      (t : List Event)
      → (req.rights == prot_read) ≡ false
      → may_write req.rights ≡ true
      → (a : Page × List Event) × (outcome env p (req ∷ rest) b readers s t
          ≡ elim readers [ [] ↦ ok a | _ ∷ _ ↦ out_of_fuel ])
  unfolding outcome
  outcome_writer req rest b readers s t other write = (
    (
      record (giveup_localpage p req.sockfd) { directory = some (directory rest b [] false) },
      give env p req.sockfd req.rights t,
    ),
    rw (other, write) refl,
  )

  outcome_refused :
      (req : Request) (rest : List Request) (b : Bool) (readers : List ℕ) (s : Bool)
      (t : List Event)
      → (req.rights == prot_read) ≡ false
      → may_write req.rights ≡ false
      → outcome env p (req ∷ rest) b readers s t ≡ exit
  unfolding outcome
  outcome_refused req rest b readers s t other bad = rw (other, bad) refl

  outcome-Returns :
      (rs : List Request) (b : Bool) (readers : List ℕ) (s : Bool) (t : List Event)
      → Returns (outcome env p rs b readers s t) ↔ Settles rs readers
  outcome-Returns [] b readers s t = (λ _. inl tt, λ _. outcome_empty b readers s t)
  outcome-Returns (req ∷ rest) b readers s t = elim (Bool-cases (req.rights == prot_read)) [
    | inl read ↦ rw (outcome_reader req rest b readers s t read) (
        let readers' = readers ++ req.sockfd ∷ [] in
        let (to, from) = outcome-Returns rest b readers' s (give env p req.sockfd req.rights t) in
        let (to', from') = after_reader req rest readers read in
        (λ h. to' (to h), λ h. from (from' h)))
    | inr other ↦ elim (Bool-cases (may_write req.rights)) [
      | inl write ↦
          let (a, e) = outcome_writer req rest b readers s t other write in
          rw e (at_writer req rest readers a other write)
      | inr bad ↦
          rw (outcome_refused req rest b readers s t other bad)
            (λ h. absurd h, λ h. absurd (at_refused req rest readers other bad h))
    ]
  ]

module _ (env : Surroundings) (p : Page) (alive : (fd : ℕ) → env.link fd ≢ broken)
    (readable : may_read p.mapped ≡ true) (keeps : env.keeps_freed ≡ true) where
  -- The loop of process_list_requests returns exactly if all the requests that wait are for reading, or
  -- the first is for writing and no reader is listed, at every fuel above their number, while no send
  -- fails, the page can be read and a freed node still reads as it did.
  pub requests_loop-Returns :
      (k : ℕ) (rs : List Request) (b : Bool) (readers : List ℕ) (s : Bool) (t : List Event)
      → length rs < k
      → Returns (requests_loop env k p (directory rs b readers s) t) ↔ Settles rs readers
  requests_loop-Returns k rs b readers s t fuel =
      rw (requests_loop-outcome env p alive readable keeps k rs b readers s t fuel)
        (outcome-Returns env p rs b readers s t)
