-- ===== src/Telemetry/Sampler.antt =====
-- `bgp_peer_node`, `bgp_peer_state` and `_summarise_bgp` of harness/telemetry.py.
-- What vtysh answers is JSON without lists, Booleans and negative or fractional numbers. `str.lower`
-- and `str` of what is no text are parameters.
pub mod Counts
pub mod Cpu
mod Examples
use vyos_ixp_bgp_stress.Prelude.{
  ℕ, zero, suc, ◌+◌, ◌-◌, ◌*◌, String, Bool, true, false, not, ◌&&◌, ◌||◌, Option, none, some, List,
  [], ◌∷◌, ◌++◌, length, ltb, leb, ◌==◌, if◌then◌else◌, max, or_zero, is_some, str_eq,
}
use vyos_ixp_bgp_stress.Prelude.Dict.{lookup, insert}
use vyos_ixp_bgp_stress.Telemetry.Sample.{Summary}

mutual
  pub data Json : Type 0 where
    null : Json
    number : ℕ → Json
    text : String → Json
    object : Fields → Json

  -- The entries of a dictionary, in its order.
  pub data Fields : Type 0 where
    done : Fields
    entry : String → Json → Fields → Fields

unfoldable pub find : String → Fields → Option Json
find k done = none
find k (entry j v rest) = if str_eq j k then some v else find k rest

unfoldable pub size : Fields → ℕ
size done = 0
size (entry j v rest) = suc (size rest)

-- The first value that is a dictionary with "peers".
unfoldable pub node_in : Fields → Option Fields
unfolding find
node_in done = none
node_in (entry k (object fs) rest) =
    let other = node_in rest in if is_some (find "peers" fs) then some fs else other
node_in (entry k v rest) = node_in rest

unfoldable pub bgp_peer_node : Option Json → Option Fields
unfolding find node_in
bgp_peer_node (some (object fs)) = if is_some (find "peers" fs) then some fs else node_in fs
bgp_peer_node _ = none

module _ (str : Json → String) where
  -- `str(p.get("state", ""))`
  abbrev pub state_of : Fields → String
  state_of p = elim (find "state" p) [
    | none ↦ ""
    | some v ↦ elim v [
      | null ↦ str null
      | number n ↦ str (number n)
      | text s ↦ s
      | object fs ↦ str (object fs)
    ]
  ]

  abbrev pub state_or_none : Option Json → Option String
  state_or_none (some (object p)) = if str_eq (state_of p) "" then none else some (state_of p)
  state_or_none _ = none

  abbrev pub state_at : String → Option Json → Option String
  state_at peer (some (object peers)) = state_or_none (find peer peers)
  state_at peer _ = none

  unfoldable pub bgp_peer_state : Option Json → String → Option String
  bgp_peer_state summary peer = elim (bgp_peer_node summary) [
    | none ↦ none
    | some node ↦ state_at peer (find "peers" node)
  ]

-- `p.get(k) or 0`, if that is an `int`.
abbrev pub int_or_zero : Option Json → Option ℕ
int_or_zero none = some 0
int_or_zero (some null) = some 0
int_or_zero (some (number n)) = some n
int_or_zero (some (text s)) = if str_eq s "" then some 0 else none
int_or_zero (some (object done)) = some 0
int_or_zero (some (object (entry k v rest))) = none

-- A scalar that is passed on; what is no number counts as missing.
abbrev pub scalar : Option Json → Option ℕ
scalar (some (number n)) = some n
scalar _ = none

pub record PeerDetail : Type 0 where
  pub state : String
  pub pfx_rcd : Option ℕ
  pub pfx_snt : Option ℕ
  pub conn_est : Option ℕ
  pub conn_drop : Option ℕ

pub record BgpSummary : Type 0 where
  pub read_ok : Bool
  pub peers : ℕ
  pub established : ℕ
  pub failed : Option ℕ
  pub table_version : Option ℕ
  pub rib_count : Option ℕ
  pub rib_memory : Option ℕ
  pub peer_memory : Option ℕ
  pub pfx_rcd_total : ℕ
  pub pfx_snt_total : ℕ
  pub max_pfx_rcd : ℕ
  pub not_established : List (String × String)
  pub per_peer : List (String × PeerDetail)

abbrev pub per_peer_sample_limit : ℕ
per_peer_sample_limit = 64

abbrev pub not_established_cap : ℕ
not_established_cap = 25

abbrev pub nothing_read : Bool → BgpSummary
nothing_read read_ok = record {
  read_ok = read_ok;
  peers = 0;
  established = 0;
  failed = none;
  table_version = none;
  rib_count = none;
  rib_memory = none;
  peer_memory = none;
  pfx_rcd_total = 0;
  pfx_snt_total = 0;
  max_pfx_rcd = 0;
  not_established = [];
  per_peer = [];
}

-- The texts that Python makes of a state.
pub record Texts : Type 0 where
  pub lower : String → String
  pub str : Json → String

-- One peer that is a dictionary. The Booleans are `full_detail` and whether the detail is kept.
unfoldable pub count_peer : Texts → Bool → Bool → String → Fields → BgpSummary → BgpSummary
count_peer py full kept addr p out =
    let state = state_of py.str p in
    let up = str_eq (py.lower state) "established" in
    let rcd = int_or_zero (find "pfxRcd" p) in
    let snt = int_or_zero (find "pfxSnt" p) in
    let listed = full || ltb (length out.not_established) not_established_cap in
    record out {
      established = if up then out.established + 1 else out.established;
      not_established =
          if not up && listed
          then out.not_established ++ (addr, if str_eq state "" then "?" else state) ∷ []
          else out.not_established;
      pfx_rcd_total = out.pfx_rcd_total + or_zero rcd;
      max_pfx_rcd = max out.max_pfx_rcd (or_zero rcd);
      pfx_snt_total = out.pfx_snt_total + or_zero snt;
      per_peer =
          if kept
          then out.per_peer
            ++ (
              addr,
              record {
                state = state;
                pfx_rcd = rcd;
                pfx_snt = snt;
                conn_est = scalar (find "connectionsEstablished" p);
                conn_drop = scalar (find "connectionsDropped" p);
              },
            )
              ∷ []
          else out.per_peer;
    }

-- The loop over `peers.items()`.
unfoldable pub count_peers : Texts → Bool → Bool → Fields → BgpSummary → BgpSummary
unfolding count_peer
count_peers py full kept done out = out
count_peers py full kept (entry addr (object p) rest) out =
    count_peers py full kept rest (count_peer py full kept addr p out)
count_peers py full kept (entry addr v rest) out = count_peers py full kept rest out

abbrev pub peers_of : Option Json → Fields
peers_of (some (object fs)) = fs
peers_of _ = done

abbrev pub or_missing : Option ℕ → ℕ → Option ℕ
or_missing none n = some n
or_missing (some m) n = some m

-- `_summarise_bgp` behind the choice of the node.
unfoldable pub summarise_node : Texts → Bool → Fields → BgpSummary
unfolding count_peers size
summarise_node py full node =
    let peers = peers_of (find "peers" node) in
    let start = record (nothing_read true) {
      peers = size peers;
      failed = scalar (find "failedPeers" node);
      table_version = scalar (find "tableVersion" node);
      rib_count = scalar (find "ribCount" node);
      rib_memory = scalar (find "ribMemory" node);
      peer_memory = scalar (find "peerMemory" node);
    } in
    let out = count_peers py full (full || leb (size peers) per_peer_sample_limit) peers start in
    record out { failed = or_missing out.failed (out.peers - out.established) }

unfoldable pub summarise_bgp : Texts → Bool → Option Json → BgpSummary
summarise_bgp py full (some (object fs)) =
    summarise_node py full
      (elim (bgp_peer_node (some (object fs))) [ none ↦ fs | some node ↦ node ])
summarise_bgp py full _ = nothing_read false

-- What the tracker and the predicates read of it.
abbrev pub as_read : BgpSummary → Summary
as_read b = record {
  read_ok = b.read_ok;
  peers = b.peers;
  established = b.established;
  failed = b.failed;
  table_version = b.table_version;
  rib_count = b.rib_count;
  pfx_rcd_total = b.pfx_rcd_total;
}
