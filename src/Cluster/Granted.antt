-- ===== src/Cluster/Granted.antt =====
-- The round of the master's loop at a request for writing while no reader is listed.
use psar_dsm.Prelude.{
  ℕ, ◌≡◌, refl, inl, inr, true, false, some, List, [], ◌∷◌, ◌==◌, arith, Bool, Bool-cases, ok,
  fault, IfOk,
}
use psar_dsm.Memory.{Request, Directory, Page, may_read, may_write, prot_read}
use psar_dsm.Message.{Surroundings, up}
use psar_dsm.Core.{satisfy_request, giveup_localpage, Turn, again, returns, serve, serve_writer}
use psar_dsm.Core.Serve.{directory, give, serve-grant}
use psar_dsm.Cluster.Asked.{to_write}

-- The round of the loop at a request for writing while no reader is listed.
module _ (env : Surroundings) (works : (fd : ℕ) → env.link fd ≡ up) (p : Page) (req : Request)
    (rest : List Request) (b sent_before : Bool) (write : req.rights ≡ to_write) where
  abbrev first : Directory
  first = directory (req ∷ rest) b [] sent_before

  abbrev granted : Page
  granted = record (giveup_localpage p req.sockfd) { directory = some (directory rest b [] false) }

  pub serve-granted :
      may_read p.mapped ≡ true
      → serve env p first req [] ≡ ok (returns granted (give env p req.sockfd req.rights []))
  serve-granted reads =
      serve-grant env p (λ fd broken_fd. cc (works fd)) reads req rest b sent_before []
        (ground arith) (ground arith)

  serve-unreadable : may_read p.mapped ≡ false → serve env p first req [] ≡ fault
  unfolding serve serve_writer satisfy_request
  serve-unreadable cannot =
      let other : (req.rights == prot_read) ≡ false = ground arith in
      let writes : may_write req.rights ≡ true = ground arith in
      elim (Bool-cases sent_before) [
        | inl e ↦ simp (other, writes, e, cannot) refl
        | inr e ↦ simp (other, writes, e, cannot) refl
      ]

  abbrev pub Grants : Turn → Type 0
  Grants (again d t) = ⊥
  Grants (returns p' t) = p'.directory ≡ some (directory rest b [] false)

  pub serve-Grants : IfOk Grants (serve env p first req [])
  unfolding giveup_localpage
  serve-Grants = elim (Bool-cases (may_read p.mapped)) [
    | inl reads ↦ rw (serve-granted reads) refl
    | inr cannot ↦ rw (serve-unreadable cannot) tt
  ]
