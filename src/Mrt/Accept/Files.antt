-- ===== src/Mrt/Accept/Files.antt =====
-- Whole files: every record that the writer appends is accepted, and so is the file.
use vyos_ixp_bgp_stress.Prelude.{
  ℕ, zero, suc, ◌+◌, ◌≤◌, ◌≡◌, refl, ◌∙◌, ap, Bool, true, false, not, ◌&&◌, some, List, [], ◌∷◌,
  ◌++◌, append_assoc, append-nil, length, length-append, All, arith, ◌==◌, if◌then◌else◌,
}
use vyos_ixp_bgp_stress.Mrt.Bytes.{
  Bytes, >>=-eq-some, pack_i, pack_i-eq, two_bytes, four_bytes, u16-two_bytes, u32-four_bytes,
}
use vyos_ixp_bgp_stress.Mrt.Walk.{ok, slice-append}
use vyos_ixp_bgp_stress.Mrt.Writer.{
  MrtWriter, mrt_msg, rib_body, rib_subtype, add, Addition, add_all,
}
use vyos_ixp_bgp_stress.Mrt.Check.{
  Summary, mrt_header, check_rib, check_body, check_record, check_records,
}
use vyos_ixp_bgp_stress.Mrt.Accept.Ribs.{CanAdd, check_rib-rib_body}

abbrev pub message : ℕ → ℕ → Bytes → Bytes
message ts subtype body =
    four_bytes ts ++ (two_bytes 13 ++ (two_bytes subtype ++ (four_bytes (length body) ++ body)))

pub mrt_msg-eq :
    (subtype ts : ℕ) (body block : Bytes)
    → mrt_msg subtype body ts ≡ some block
    → block ≡ message ts subtype body
unfolding mrt_msg
mrt_msg-eq subtype ts body block h =
    let (time, e1, h1) = >>=-eq-some (pack_i ts) _ h in
    let (size, e2, h2) = >>=-eq-some (pack_i (length body)) _ h1 in
    let (_, t) = pack_i-eq ts time e1 in let (_, z) = pack_i-eq (length body) size e2 in cc

-- One record, with what follows it.
check_record-message :
    (first : Bool) (ts subtype : ℕ) (body rest : Bytes) (s s' : Summary)
    → (first && not (subtype == 1)) ≡ false
    → check_body subtype body s ≡ ok s'
    → check_record first (message ts subtype body ++ rest) s
      ≡ ok (record s' { records = s'.records + 1 }, rest)
unfolding check_record mrt_header
check_record-message first ts subtype body rest s s' allowed checked =
    simp (u16-two_bytes, u32-four_bytes, slice-append, allowed, checked)

pub check_records-message :
    (f : ℕ) (first : Bool) (ts subtype : ℕ) (body rest : Bytes) (s s' : Summary)
    → (first && not (subtype == 1)) ≡ false
    → check_body subtype body s ≡ ok s'
    → check_records (suc f) first (message ts subtype body ++ rest) s
      ≡ check_records f false rest (record s' { records = s'.records + 1 })
unfolding check_records
check_records-message f first ts subtype body rest s s' allowed checked =
    rw (check_record-message first ts subtype body rest s s' allowed checked)

check_body-rib :
    (is_v6 : Bool) (body : Bytes) (s : Summary)
    → check_body (rib_subtype is_v6) body s ≡ check_rib is_v6 body s
unfolding check_body
check_body-rib true body s = refl
check_body-rib false body s = refl

-- How many prefixes of each family are added, and how many entries.
abbrev pub count_v4 : List Addition → ℕ
count_v4 [] = 0
count_v4 (a ∷ rest) = (if a.is_v6 then 0 else 1) + count_v4 rest

abbrev pub count_v6 : List Addition → ℕ
count_v6 [] = 0
count_v6 (a ∷ rest) = (if a.is_v6 then 1 else 0) + count_v6 rest

abbrev pub count_entries : List Addition → ℕ
count_entries [] = 0
count_entries (a ∷ rest) = length a.entries + count_entries rest

-- `s'` is `s` and everything of the additions.
pub record AddedAll (adds : List Addition) (s s' : Summary) : Type 0 where
  pub records : s'.records ≡ s.records + length adds
  pub peers : s'.peers ≡ s.peers
  pub prefixes_v4 : s'.prefixes_v4 ≡ s.prefixes_v4 + count_v4 adds
  pub prefixes_v6 : s'.prefixes_v6 ≡ s.prefixes_v6 + count_v6 adds
  pub rib_entries : s'.rib_entries ≡ s.rib_entries + count_entries adds

abbrev pub CanAddAll : ℕ → List Bool → List Addition → Type 0
CanAddAll count afi adds = All (λ a. CanAdd a.is_v6 count afi a.prefix a.entries) adds

add-file :
    (w w' : MrtWriter) (a : Addition)
    → add a.is_v6 w a.prefix a.entries ≡ some w'
    → (body : Bytes) × (rib_body a.is_v6 w a.prefix a.entries ≡ some body)
      × (w'.file ≡ w.file ++ message w.timestamp (rib_subtype a.is_v6) body)
unfolding add
add-file w w' a h =
    let (body, e1, h1) = >>=-eq-some (rib_body a.is_v6 w a.prefix a.entries) _ h in
    let (block, e2, h2) = >>=-eq-some (mrt_msg (rib_subtype a.is_v6) body w.timestamp) _ h1 in
    (body, e1, cc (h2, mrt_msg-eq (rib_subtype a.is_v6) w.timestamp body block e2))

-- The bytes that the additions append are accepted behind whatever was checked before.
pub add_all-accepted :
    (w w' : MrtWriter) (adds : List Addition) (s : Summary)
    → add_all w adds ≡ some w'
    → CanAddAll s.peer_count s.peer_afi adds
    → (tail : Bytes) × (s' : Summary) × (w'.file ≡ w.file ++ tail)
      × AddedAll adds s s'
      × ((f : ℕ) → length tail ≤ f → check_records f false tail s ≡ ok s')
unfolding add_all check_records
add_all-accepted w w' [] s h can = (
  [],
  s,
  cc (h, append-nil w.file),
  record {
    records = omega arith;
    peers = refl;
    prefixes_v4 = omega arith;
    prefixes_v6 = omega arith;
    rib_entries = omega arith;
  },
  λ f room. refl,
)
add_all-accepted w w' (a ∷ rest) s h can =
    let (w1, e1, h1) = >>=-eq-some (add a.is_v6 w a.prefix a.entries) _ h in
    let (body, e2, grown) = add-file w w1 a e1 in
    let (s1, checked, added) = check_rib-rib_body a.is_v6 w a.prefix a.entries body s e2 can.0 in
    let s2 : Summary = record s1 { records = s1.records + 1 } in
    let (tail, s3, file, all, accepted) =
      add_all-accepted w1 w' rest s2 h1 (rw (added.peer_count, added.peer_afi) can.1) in
    let block = message w.timestamp (rib_subtype a.is_v6) body in
    (
      block ++ tail,
      s3,
      file ∙ (ap (λ x. x ++ tail) grown ∙ append_assoc w.file block tail),
      record {
        records = omega (arith, all.records, added.records);
        peers = all.peers ∙ added.peers;
        prefixes_v4 = omega (arith, all.prefixes_v4, added.prefixes_v4);
        prefixes_v6 = omega (arith, all.prefixes_v6, added.prefixes_v6);
        rib_entries = omega (arith, all.rib_entries, added.rib_entries);
      },
      elim [
        | zero ↦ λ room. absurd (omega arith)
        | suc f ↦ λ room.
            check_records-message f false w.timestamp (rib_subtype a.is_v6) body tail s s1 refl
              (check_body-rib a.is_v6 body s ∙ checked)
            ∙ accepted f (omega (arith, length-append body tail))
      ],
    )
