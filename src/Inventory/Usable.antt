-- ===== src/Inventory/Usable.antt =====
-- What `build_inventory` promises of the AS numbers and the NLRI slots of its sessions.
use native.Mathlib.Decide.{ℕ_discrete}
use vyos_ixp_bgp_stress.Prelude.{
  ℕ, zero, suc, ◌+◌, ◌≡◌, ◌≢◌, refl, sym, subst, ◌∙◌, ap, String, false, Option, some, List, [],
  ◌∷◌, ◌++◌, map, length, length-append, leb, ◌-◌, not, ◌||◌, str_eq, All, All-append, arith, ◌==◌,
  is_some,
}
use vyos_ixp_bgp_stress.Prelude.Dict.{lookup}
use vyos_ixp_bgp_stress.Prelude.Keys.{mem, same-eq, Distinct, Distinct-append}
use vyos_ixp_bgp_stress.Inventory.Asn.{asn_is_bogon, next_safe_asn, next_safe_asn-IsNext}
use vyos_ixp_bgp_stress.Inventory.Profile.{
  Result, ok, >>=-eq-ok, or_raise-then, refuse-then, Fabric, Fleet, Profile, Session, Inventory,
  num_addresses, asn_claimed, dut_asn_allocated, net_exhausted, key_error, out_of_fuel,
  unknown_fabric, unknown_engine, no_sessions,
}
use vyos_ixp_bgp_stress.Inventory.Build.{
  State, owner_of, address_of, has_afi, new_session, add_peer, add_peers, find_fabric, add_fleet,
  add_fleets, initial, validate_dut, validate_fabrics, validate_bridges, build_inventory,
}

abbrev pub asns : List Session → List ℕ
asns ss = map (λ x. x.asn) ss

abbrev pub upto : ℕ → List ℕ
upto zero = []
upto (suc n) = upto n ++ n ∷ []

-- The AS number is neither bogon nor the DUT's.
abbrev pub IsUsable : ℕ → Session → Type 0
IsUsable dut x = (asn_is_bogon x.asn ≡ false) × (x.asn ≢ dut)

record Good (dut : ℕ) (s : State) : Type 0 where
  owners : map (λ e. e.0) s.asn_owner ≡ asns s.sessions
  distinct : Distinct ℕ_discrete (asns s.sessions)
  usable : All (IsUsable dut) s.sessions
  slots : map (λ x. x.nlri_slot) s.sessions ≡ upto s.nlri_cursor
  count : length s.sessions ≡ s.nlri_cursor

owner_of-mem :
    (asn : ℕ) (owners : List (ℕ × String))
    → is_some (owner_of asn owners) ≡ false
    → mem ℕ_discrete asn (map (λ e. e.0) owners) ≡ false
unfolding mem
owner_of-mem asn [] h = refl
owner_of-mem asn ((a, f) ∷ rest) h = ground (arith, owner_of-mem asn rest, same-eq ℕ_discrete asn a)

map-snoc :
    {A B : Type 0} (f : A → B) (xs : List A) (x : A) → map f (xs ++ x ∷ []) ≡ map f xs ++ f x ∷ []
map-snoc f [] x = refl
map-snoc f (y ∷ ys) x = ap (λ r. f y ∷ r) (map-snoc f ys x)

-- What a round of the inner loop that raises nothing has done.
record Assigned (dut : ℕ) (f : Fleet) (i asn : ℕ) (s : State) (next : ℕ) (s' : State) : Type 0 where
  v4 : Option ℕ
  v6 : Option ℕ
  unclaimed : is_some (owner_of asn s.asn_owner) ≡ false
  other : (asn == dut) ≡ false
  following : next_safe_asn (asn + 1) ≡ some next
  sessions : s'.sessions ≡ s.sessions ++ new_session f i asn v4 v6 s.nlri_cursor ∷ []
  cursor : s'.nlri_cursor ≡ s.nlri_cursor + 1
  owners : s'.asn_owner ≡ s.asn_owner ++ (asn, f.id) ∷ []

ok-pair :
    {A B : Type 0} (a c : A) (b d : B)
    → ◌≡◌ {A = Result (A × B)} (ok (a, b)) (ok (c, d))
    → (c ≡ a) × (d ≡ b)
ok-pair a c b d h = (cc, cc)

add_peer-Assigned :
    (dut : ℕ) (f : Fleet) (fab : Fabric) (i asn : ℕ) (s : State) (next : ℕ) (s' : State)
    → add_peer dut f fab i asn s ≡ ok (next, s')
    → Assigned dut f i asn s next s'
unfolding add_peer
add_peer-Assigned dut f fab i asn s next s' h =
    let (host, e1, h1) = or_raise-then (lookup f.fabric s.host_cursor) key_error _ h in
    let (e2, h2) = refuse-then (leb (num_addresses fab.v4_net - 1) host) net_exhausted _ h1 in
    let (v4, e3, h3) = >>=-eq-ok (address_of 32 (has_afi f "ipv4") fab.v4_net host) _ h2 in
    let (v6, e4, h4) = >>=-eq-ok (address_of 128 (has_afi f "ipv6") fab.v6_net host) _ h3 in
    let (e5, h5) = refuse-then (is_some (owner_of asn s.asn_owner)) asn_claimed _ h4 in
    let (e6, h6) = refuse-then (asn == dut) dut_asn_allocated _ h5 in
    let (n, e7, h7) = or_raise-then (next_safe_asn (asn + 1)) out_of_fuel _ h6 in
    let (n_eq, s_eq) = ok-pair n next _ s' h7 in
    record {
      v4 = v4;
      v6 = v6;
      unclaimed = e5;
      other = e6;
      following = e7 ∙ ap some (sym n_eq);
      sessions = ap (λ t. t.sessions) s_eq;
      cursor = ap (λ t. t.nlri_cursor) s_eq;
      owners = ap (λ t. t.asn_owner) s_eq;
    }

next_safe_asn-safe : (asn next : ℕ) → next_safe_asn asn ≡ some next → asn_is_bogon next ≡ false
unfolding asn_is_bogon
next_safe_asn-safe asn next h =
    let (n, found, is_next) = next_safe_asn-IsNext asn in
    let same_one : n ≡ next = cc (found, h) in rw same_one at is_next.safe

Distinct-snoc :
    (xs : List ℕ) (x : ℕ)
    → Distinct ℕ_discrete xs
    → mem ℕ_discrete x xs ≡ false
    → Distinct ℕ_discrete (xs ++ x ∷ [])
unfolding mem
Distinct-snoc xs x d new =
    Distinct-append ℕ_discrete xs (x ∷ []) d (refl, tt)
      (λ a h. ground (arith, same-eq ℕ_discrete a x))

Good-Assigned :
    (dut : ℕ) (f : Fleet) (i asn : ℕ) (s : State) (next : ℕ) (s' : State)
    → asn_is_bogon asn ≡ false
    → Good dut s
    → Assigned dut f i asn s next s'
    → Good dut s'
Good-Assigned dut f i asn s next s' safe g a =
    let session = new_session f i asn a.v4 a.v6 s.nlri_cursor in
    let asns_eq : asns s'.sessions ≡ asns s.sessions ++ asn ∷ [] =
      ap asns a.sessions ∙ map-snoc (λ x. x.asn) s.sessions session in
    let one_more : s'.nlri_cursor ≡ suc s.nlri_cursor = omega (arith, a.cursor) in
    let new : mem ℕ_discrete asn (asns s.sessions) ≡ false =
      rw (← g.owners) (owner_of-mem asn s.asn_owner a.unclaimed) in
    record {
      owners =
          ap (map (λ e. e.0)) a.owners
          ∙ (map-snoc (λ e. e.0) s.asn_owner (asn, f.id)
              ∙ (ap (λ r. r ++ asn ∷ []) g.owners ∙ sym asns_eq));
      distinct = rw asns_eq (Distinct-snoc (asns s.sessions) asn g.distinct new);
      usable = rw a.sessions (
          All-append (IsUsable dut) s.sessions (session ∷ []) g.usable
            ((safe, λ e. ground (arith, a.other)), tt));
      slots =
          ap (map (λ x. x.nlri_slot)) a.sessions
          ∙ (map-snoc (λ x. x.nlri_slot) s.sessions session
              ∙ (ap (λ r. r ++ s.nlri_cursor ∷ []) g.slots ∙ ap upto (sym one_more)));
      count =
          omega (
            arith,
            ap length a.sessions,
            length-append s.sessions (session ∷ []),
            g.count,
            a.cursor,
          );
    }

ok-inj : {A : Type 0} (a b : A) → ok a ≡ ok b → a ≡ b
ok-inj a b h = cc

Good-add_peers :
    (dut : ℕ) (f : Fleet) (fab : Fabric) (n i asn : ℕ) (s s' : State)
    → asn_is_bogon asn ≡ false
    → add_peers dut f fab n i asn s ≡ ok s'
    → Good dut s
    → Good dut s' × (s'.nlri_cursor ≡ s.nlri_cursor + n)
unfolding add_peers
Good-add_peers dut f fab zero i asn s s' safe h g =
    (subst (Good dut) (ok-inj s s' h) g, omega (arith, ap (λ t. t.nlri_cursor) (ok-inj s s' h)))
Good-add_peers dut f fab (suc n) i asn s s' safe h g =
    let (p, e, h1) = >>=-eq-ok (add_peer dut f fab i asn s) _ h in
    let a = add_peer-Assigned dut f fab i asn s p.0 p.1 e in
    let (good, grown) =
      Good-add_peers dut f fab n (i + 1) p.0 p.1 s' (next_safe_asn-safe (asn + 1) p.0 a.following)
        h1 (Good-Assigned dut f i asn s p.0 p.1 safe g a) in
    (good, omega (arith, grown, a.cursor))

Good-add_fleet :
    (dut : ℕ) (fabrics : List Fabric) (f : Fleet) (s s' : State)
    → add_fleet dut fabrics f s ≡ ok s'
    → Good dut s
    → Good dut s' × (s'.nlri_cursor ≡ s.nlri_cursor + f.peers)
unfolding add_fleet
Good-add_fleet dut fabrics f s s' h g =
    let (fab, e1, h1) = or_raise-then (find_fabric f.fabric fabrics) unknown_fabric _ h in
    let (e2, h2) =
      refuse-then (not (str_eq f.engine "gobgp" || str_eq f.engine "exabgp")) unknown_engine _ h1 in
    let (asn, e3, h3) = or_raise-then (next_safe_asn f.asn_base) out_of_fuel _ h2 in
    Good-add_peers dut f fab f.peers 0 asn s s' (next_safe_asn-safe f.asn_base asn e3) h3 g

-- How many peers the fleets ask for.
abbrev pub peers_wanted : List Fleet → ℕ
peers_wanted [] = 0
peers_wanted (f ∷ rest) = f.peers + peers_wanted rest

Good-add_fleets :
    (dut : ℕ) (fabrics : List Fabric) (fleets : List Fleet) (s s' : State)
    → add_fleets dut fabrics fleets s ≡ ok s'
    → Good dut s
    → Good dut s' × (s'.nlri_cursor ≡ s.nlri_cursor + peers_wanted fleets)
unfolding add_fleets
Good-add_fleets dut fabrics [] s s' h g =
    (subst (Good dut) (ok-inj s s' h) g, omega (arith, ap (λ t. t.nlri_cursor) (ok-inj s s' h)))
Good-add_fleets dut fabrics (f ∷ rest) s s' h g =
    let (s1, e, h1) = >>=-eq-ok (add_fleet dut fabrics f s) _ h in
    let (g1, n1) = Good-add_fleet dut fabrics f s s1 e g in
    let (g2, n2) = Good-add_fleets dut fabrics rest s1 s' h1 g1 in (g2, omega (arith, n1, n2))

-- What the clients of an inventory rely on.
pub record IsSound (p : Profile) (inv : Inventory) : Type 0 where
  pub usable : All (IsUsable p.dut_asn) inv.sessions
  pub distinct : Distinct ℕ_discrete (asns inv.sessions)
  pub slots : map (λ x. x.nlri_slot) inv.sessions ≡ upto (length inv.sessions)
  pub all_peers : length inv.sessions ≡ peers_wanted p.fleets

-- Of an inventory that `build_inventory` yields: no session has a bogon AS number or the DUT's, no
-- two sessions have the same one, the NLRI slots are 0, 1, 2, … in the order of the sessions, and
-- there are as many sessions as the fleets of the profile have peers.
pub build_inventory-IsSound :
    (eth_number : String → Option ℕ) (p : Profile) (inv : Inventory)
    → build_inventory eth_number p ≡ ok inv
    → IsSound p inv
unfolding build_inventory
build_inventory-IsSound eth_number p inv h =
    let (_, e1, h1) = >>=-eq-ok (validate_dut p) _ h in
    let (_, e2, h2) = >>=-eq-ok (validate_fabrics eth_number [] p.fabrics) _ h1 in
    let (_, e3, h3) = >>=-eq-ok (validate_bridges p.bridges p.fabrics) _ h2 in
    let (s, e4, h4) =
      >>=-eq-ok (add_fleets p.dut_asn p.fabrics p.fleets (initial p.fabrics)) _ h3 in
    let (e5, h5) = refuse-then (length s.sessions == 0) no_sessions _ h4 in
    let empty : Good p.dut_asn (initial p.fabrics) = record {
      owners = refl;
      distinct = tt;
      usable = tt;
      slots = refl;
      count = refl;
    } in
    let (g, n) = Good-add_fleets p.dut_asn p.fabrics p.fleets (initial p.fabrics) s e4 empty in
    let kept : s.sessions ≡ inv.sessions = ap (λ x. x.sessions) (ok-inj _ inv h5) in
    record {
      usable = subst (All (IsUsable p.dut_asn)) kept g.usable;
      distinct = subst (λ ss. Distinct ℕ_discrete (asns ss)) kept g.distinct;
      slots = subst (λ ss. map (λ x. x.nlri_slot) ss ≡ upto (length ss)) kept (rw g.count g.slots);
      all_peers = omega (arith, ap length kept, g.count, n);
    }
