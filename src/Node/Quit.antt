-- ===== src/Node/Quit.antt =====
-- InitMaster, InitSlave and QuitDSM of dsm.c, over dsm_g and the memory that a node holds.
use psar_dsm.Prelude.{
  ℕ, Bool, Option, none, some, List, [], if◌then◌else◌, Run, ok, exit, fault, blocked, ◌>>=◌,
}
use psar_dsm.Message.{Message, Surroundings}
use psar_dsm.Node.{Node}
use psar_dsm.Node.Api.{terminate, master_waits}
use psar_dsm.Node.Join.{System, dsm_m_init, dsm_n_init}
use psar_dsm.Node.Blocks.{Block, dsm, uses, free, master_blocks, slave_blocks, dsm_destroy}

-- dsm_g, which is NULL (`none`) before the first call and is not reset by the last, with the memory
-- that is taken.
pub record Process : Type 0 where
  pub dsm_g : Option Node
  pub live : List Block

module _ (sys : System) where
  -- The base address. A second call only logs.
  unfoldable pub init_master : Process → (page_count : ℕ) → Run (Process × ℕ)
  init_master p page_count = elim p.dsm_g [
    | some n ↦ uses dsm p.live >>= λ _. ok (p, n.mem.base_addr)
    | none ↦
        if sys.allocates
        then (dsm_m_init sys page_count >>= λ n.
            ok (record { dsm_g = some n; live = master_blocks page_count }, n.mem.base_addr))
        else exit
  ]

  unfoldable pub init_slave : Surroundings → (reply : Option Message) → Process → Run (Process × ℕ)
  init_slave env reply p = elim p.dsm_g [
    | some n ↦ uses dsm p.live >>= λ _. ok (p, n.mem.base_addr)
    | none ↦
        if sys.allocates
        then (dsm_n_init sys env reply >>= λ n.
            ok (record { dsm_g = some n; live = slave_blocks n.mem.page_count }, n.mem.base_addr))
        else exit
  ]

-- From the return of terminate on.
unfoldable pub destroy : Node → List Block → Run Process
destroy n live = do
  live ← dsm_destroy n.is_master n.mem.page_count live
  live ← free dsm live
  ok (record { dsm_g = some n; live = live })

-- The master sleeps while clients are left.
unfoldable pub quit_dsm : Surroundings → Process → Run Process
quit_dsm env p = elim p.dsm_g [
  | none ↦ fault
  | some n ↦ do
    live ← uses dsm p.live
    n' ← terminate env n
    if master_waits n' then blocked else destroy n' live
]

-- What a node has taken when its initialisation is over.
abbrev pub blocks : (is_master : Bool) → (page_count : ℕ) → List Block
blocks is_master page_count =
    if is_master then master_blocks page_count else slave_blocks page_count

abbrev pub fresh : Process
fresh = record { dsm_g = none; live = [] }

abbrev pub holding : Node → Process
holding n = record { dsm_g = some n; live = blocks n.is_master n.mem.page_count }

abbrev pub left : Node → Process
left n = record { dsm_g = some n; live = [] }
