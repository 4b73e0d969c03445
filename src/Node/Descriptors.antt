-- ===== src/Node/Descriptors.antt =====
-- The sets of descriptors of the listener (active_fd_set in msg_listener_start of dsm_socket.c), and when
-- select fails on them.
use psar_dsm.Prelude.{
  ℕ, ◌≡◌, refl, sym, Bool, true, false, ◌&&◌, ◌||◌, not, Option, none, some, List, [], ◌∷◌, ◌==◌,
  if◌then◌else◌, Bool-cases, inl, inr, arith,
}
use psar_dsm.Message.{Message}
use psar_dsm.Node.Listener.{Input, Listener, Select, is_set, fd_clr, fd_set}

-- The end of a connection.
abbrev pub is_end : Option Message → Bool
is_end none = true
is_end (some m) = false

-- Whether a round, or one of several, brings the end of the connection on `fd`.
abbrev pub ends : (fd : ℕ) → List Input → Bool
ends fd [] = false
ends fd (i ∷ is) = (i.fd == fd && is_end i.receives) || ends fd is

abbrev pub ended : (fd : ℕ) → List (List Input) → Bool
ended fd [] = false
ended fd (round ∷ rounds) = ends fd round || ended fd rounds

-- No socket of the set is closed.
abbrev pub AllOpen : (closed set : List ℕ) → Type 0
AllOpen closed set = (fd : ℕ) → is_set fd set ≡ true → is_set fd closed ≡ false

-- The documented behaviour of select: EBADF for a closed descriptor in the set, and no failure
-- otherwise, if no signal comes in between.
pub record Selects (selects : Select) : Type 0 where
  pub bad_descriptor :
      (closed set : List ℕ) (fd : ℕ)
      → is_set fd set ≡ true
      → is_set fd closed ≡ true
      → selects closed set ≡ false
  pub all_open : (closed set : List ℕ) → AllOpen closed set → selects closed set ≡ true

pub is_set-fd_clr :
    (x y : ℕ) (xs : List ℕ) → is_set x (fd_clr y xs) ≡ (if x == y then false else is_set x xs)
is_set-fd_clr x y [] = ground arith
is_set-fd_clr x y (z ∷ xs) = ground (arith, is_set-fd_clr x y xs)

pub is_set-fd_set :
    (x y : ℕ) (xs : List ℕ) → is_set x (fd_set y xs) ≡ (if x == y then true else is_set x xs)
is_set-fd_set x y xs = ground (arith, is_set-fd_clr x y xs)

-- A slave that is connected to the master on `own` watches only open sockets beside that, and `gone`
-- says whether `own` is closed.
pub record Watches (own : ℕ) (gone : Bool) (l : Listener) : Type 0 where
  pub slave : l.node.is_master ≡ false
  pub socket : l.node.master_sockfd ≡ own
  pub others :
      (fd : ℕ) → (fd == own) ≡ false → is_set fd l.active ≡ true → is_set fd l.closed ≡ false
  pub own_closed : is_set own l.closed ≡ gone

pub or_false : (b : Bool) → (b || false) ≡ b
or_false true = refl
or_false false = refl

pub or_assoc : (a b c : Bool) → ((a || b) || c) ≡ (a || (b || c))
or_assoc true b c = refl
or_assoc false b c = refl

-- The connection to the master is always among the sockets that are ready to be served.
pub passed_over :
    (own : ℕ) (ready : List ℕ) (gone : Bool) (i : Input)
    → is_set own ready ≡ true
    → is_set i.fd ready ≡ false
    → gone ≡ (gone || i.fd == own && is_end i.receives)
passed_over own ready gone i at missed = elim (Bool-cases (i.fd == own)) [
  | inl same ↦ absurd (ground arith)
  | inr other ↦ rw other (sym (or_false gone))
]

pub if_not {ℓ} : {A : Type ℓ} (b : Bool) (x y : A) → (if not b then x else y) ≡ (if b then y else x)
if_not true x y = refl
if_not false x y = refl

-- select fails exactly if the connection to the master is closed.
pub next_select :
    (selects : Select) (own : ℕ) (gone : Bool) (l : Listener)
    → Selects selects
    → Watches own gone l
    → selects l.closed (fd_set own l.active) ≡ not gone
next_select selects own true l sel w =
    sel.bad_descriptor l.closed (fd_set own l.active) own
      (ground (arith, is_set-fd_set own own l.active)) w.own_closed
next_select selects own false l sel w = sel.all_open l.closed (fd_set own l.active) λ fd active.
    elim (Bool-cases (fd == own)) [
      | inl same ↦ (let e : fd ≡ own = ground arith in rw e w.own_closed)
      | inr other ↦ w.others fd other (ground (arith, is_set-fd_set fd own l.active))
    ]
