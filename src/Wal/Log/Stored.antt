-- ===== src/Wal/Log/Stored.antt =====
-- Reads and writes of segment files, and disks from which replay recovers known records.
use mathlib.Core.List.{append_assoc, append-nil}
use stitch.Prelude.{
  ℕ, ◌+◌, ◌-◌, ◌≤◌, ◌<◌, ◌≡◌, ◌≢◌, refl, ap, sym, ◌∙◌, Bool, true, false, ◌||◌, List, [], ◌∷◌, ◌++◌,
  arith, ◌==◌, take, take_append_ge, take-nil, Result, ok,
}
use mathlib.Core.Path.{subst}
use stitch.Wal.Record.{Record, append_record}
use stitch.Wal.Recovery.{Disk, read_segment, write_segment, Replayed, ReplayError, replay}
use stitch.Wal.Recovery.Prefix.{
  AllWritable, segment_of, size_of, survivors, fold_log, length-segment_of, frame_size,
  survivors-whole,
}
use stitch.Wal.Recovery.Replay.{
  Intact, indexes_of, records_of, no_faults, recovered, replay-recovers,
}

abbrev pub has : Disk → ℕ → Bool
has [] i = false
has ((j, b) ∷ d) i = j == i || has d i

abbrev pub indexes : Disk → List ℕ
indexes [] = []
indexes ((j, b) ∷ d) = j ∷ indexes d

pub read-write_same :
    (d : Disk) (i : ℕ) (b : List ℕ) → has d i ≡ true → read_segment (write_segment d i b) i ≡ b
read-write_same [] i b h = absurd (cc)
read-write_same ((j, c) ∷ d) i b h = ground (arith, read-write_same d i b)

pub read-write_other :
    (d : Disk) (i j : ℕ) (b : List ℕ)
    → i ≢ j
    → read_segment (write_segment d i b) j ≡ read_segment d j
read-write_other [] i j b h = refl
read-write_other ((m, c) ∷ d) i j b h = ground (arith, read-write_other d i j b)

pub has-write : (d : Disk) (i j : ℕ) (b : List ℕ) → has (write_segment d i b) j ≡ has d j
has-write [] i j b = refl
has-write ((m, c) ∷ d) i j b = ground (arith, has-write d i j b)

pub indexes-write : (d : Disk) (i : ℕ) (b : List ℕ) → indexes (write_segment d i b) ≡ indexes d
indexes-write [] i b = refl
indexes-write ((m, c) ∷ d) i b = ground (arith, indexes-write d i b)

pub read-append : (d e : Disk) (j : ℕ) → has d j ≡ true → read_segment (d ++ e) j ≡ read_segment d j
read-append [] e j h = absurd (cc)
read-append ((m, c) ∷ d) e j h = ground (arith, read-append d e j)

pub read-append_new : (d : Disk) (j : ℕ) → read_segment (d ++ ((j, []) ∷ [])) j ≡ read_segment d j
read-append_new [] j = ground arith
read-append_new ((m, c) ∷ d) j = ground (arith, read-append_new d j)

pub has-append : (d e : Disk) (j : ℕ) → has (d ++ e) j ≡ (has d j || has e j)
has-append [] e j = refl
has-append ((m, c) ∷ d) e j = ground (arith, has-append d e j)

pub has_new : (d : Disk) (j : ℕ) → has (d ++ ((j, []) ∷ [])) j ≡ true
has_new [] j = ground arith
has_new ((m, c) ∷ d) j = ground (arith, has_new d j)

pub indexes-append : (d e : Disk) → indexes (d ++ e) ≡ indexes d ++ indexes e
indexes-append [] e = refl
indexes-append ((m, c) ∷ d) e = ap (◌∷◌ m) (indexes-append d e)

-- Segments below `bound` that are on the disk, whole.
abbrev pub Sealed : Disk → ℕ → List (ℕ × List Record) → Type 0
Sealed disk bound [] = Unit {0}
Sealed disk bound ((j, rs) ∷ segs) =
    AllWritable rs
    × (read_segment disk j ≡ segment_of rs)
    × (has disk j ≡ true)
    × (j < bound)
    × Sealed disk bound segs

-- The disk holds the frames of the records `acked`, in order, and perhaps a part of the frames of
-- `unsure` behind them in the last segment.
pub record Recoverable (disk : Disk) (acked unsure : List Record) : Type 0 where
  pub segs : List (ℕ × List Record)
  pub last : ℕ
  pub cur : List Record
  pub cut : ℕ
  pub sealed : Sealed disk last segs
  pub present : has disk last ≡ true
  pub order : indexes disk ≡ indexes_of segs ++ last ∷ []
  pub writable : AllWritable (cur ++ unsure)
  pub within : cut ≤ size_of unsure
  pub bytes : read_segment disk last ≡ segment_of cur ++ take cut (segment_of unsure)
  pub all : acked ≡ records_of segs ++ cur

pub Sealed-write :
    (d : Disk) (i : ℕ) (b : List ℕ) (segs : List (ℕ × List Record))
    → Sealed d i segs
    → Sealed (write_segment d i b) i segs
Sealed-write d i b [] h = tt
Sealed-write d i b ((j, rs) ∷ segs) h =
    let other : i ≢ j = λ e. absurd (omega arith) in
    (
      h.0,
      read-write_other d i j b other ∙ h.1,
      has-write d i j b ∙ h.2,
      h.3,
      Sealed-write d i b segs h.4,
    )

pub Sealed-append :
    (d e : Disk) (i k : ℕ) (segs : List (ℕ × List Record))
    → i ≤ k
    → Sealed d i segs
    → Sealed (d ++ e) k segs
Sealed-append d e i k [] le h = tt
Sealed-append d e i k ((j, rs) ∷ segs) le h = (
  h.0,
  read-append d e j h.2 ∙ h.1,
  has-append d e j ∙ ap (λ b. b || has e j) h.2,
  omega arith,
  Sealed-append d e i k segs le h.4,
)

pub Sealed-Intact :
    (d : Disk) (i : ℕ) (segs : List (ℕ × List Record)) → Sealed d i segs → Intact d segs
Sealed-Intact d i [] h = tt
Sealed-Intact d i ((j, rs) ∷ segs) h = (h.0, h.1, Sealed-Intact d i segs h.4)

pub segment_of-append : (a b : List Record) → segment_of (a ++ b) ≡ segment_of a ++ segment_of b
segment_of-append [] b = refl
segment_of-append (r ∷ a) b =
    ap (λ t. append_record [] r.type r.payload ++ t) (segment_of-append a b)
    ∙ sym (append_assoc _ (segment_of a) (segment_of b))

pub size_of-append : (a b : List Record) → size_of (a ++ b) ≡ size_of a + size_of b
size_of-append [] b = omega arith
size_of-append (r ∷ a) b = omega (arith, size_of-append a b)

pub survivors-append :
    (a b : List Record) (k : ℕ) → survivors (size_of a + k) (a ++ b) ≡ a ++ survivors k b
survivors-append [] b k = ap (λ n. survivors n b) (omega arith)
survivors-append (r ∷ a) b k =
    let left : size_of (r ∷ a) + k - frame_size r ≡ size_of a + k = omega arith in
    survivors-whole (size_of (r ∷ a) + k) r (a ++ b) (omega arith)
    ∙ ap (λ n. r ∷ survivors n (a ++ b)) left
    ∙ ap (◌∷◌ r) (survivors-append a b k)

pub AllWritable-append : (a b : List Record) → AllWritable a → AllWritable b → AllWritable (a ++ b)
AllWritable-append [] b wa wb = wb
AllWritable-append (r ∷ a) b wa wb = (wa.0, AllWritable-append a b wa.1 wb)

module _ {disk : Disk} {acked unsure : List Record} (r : Recoverable disk acked unsure) where
  pub whole_last :
      read_segment disk r.last ≡ take (size_of r.cur + r.cut) (segment_of (r.cur ++ unsure))
  whole_last =
      let size = length-segment_of r.cur in
      let m = size_of r.cur + r.cut in
      let kept = take_append_ge m (segment_of r.cur) (segment_of unsure) (omega (arith, size)) in
      let left : m - size_of r.cur ≡ r.cut = omega arith in
      r.bytes ∙ sym (rw (segment_of-append r.cur unsure, kept, size, left))

  pub regroup_log :
      acked ++ survivors r.cut unsure
      ≡ records_of r.segs ++ survivors (size_of r.cur + r.cut) (r.cur ++ unsure)
  regroup_log =
      rw (survivors-append, r.all) (append_assoc (records_of r.segs) r.cur (survivors r.cut unsure))

  -- Replay succeeds on such a disk, and its state is the fold over the acknowledged records,
  -- followed by the whole frames among the others.
  pub replay-Recoverable {ℓ} :
      {E S : Type ℓ} (apply : Record → S → Result E S) (st st1 : S)
      → fold_log apply (acked ++ survivors r.cut unsure) st ≡ ok st1
      → (out : Replayed S) × ((replay apply no_faults disk (indexes disk) st).0 ≡ ok out)
        × (out.state ≡ st1)
  replay-Recoverable {E} {S} apply st st1 e =
      let run =
        replay-recovers apply r.segs disk r.last (size_of r.cur + r.cut) (r.cur ++ unsure) st st1
          (Sealed-Intact disk r.last r.segs r.sealed) r.writable
          (omega (arith, size_of-append r.cur unsure, r.within)) whole_last (rw regroup_log at e) in
      let kept = survivors (size_of r.cur + r.cut) (r.cur ++ unsure) in
      let out = recovered apply (size_of kept == size_of r.cur + r.cut) r.segs r.last kept st1 in
      let answer = ap (λ (x : Result (ReplayError E) (Replayed S) × Disk). x.0) run in
      (out, subst (λ xs. (replay apply no_faults disk xs st).0 ≡ ok out) (sym r.order) answer, refl)

abbrev pub AllBelow : ℕ → List ℕ → Type 0
AllBelow n [] = Unit {0}
AllBelow n (j ∷ js) = (j < n) × AllBelow n js

pub read_absent : (d : Disk) (i : ℕ) → AllBelow i (indexes d) → read_segment d i ≡ []
read_absent [] i h = refl
read_absent ((j, b) ∷ d) i h = ground (arith, read_absent d i h.1)

pub Sealed-AllBelow :
    (d : Disk) (i : ℕ) (segs : List (ℕ × List Record))
    → Sealed d i segs
    → AllBelow (i + 1) (indexes_of segs ++ i ∷ [])
Sealed-AllBelow d i [] h = (omega arith, tt)
Sealed-AllBelow d i ((j, rs) ∷ segs) h = (omega (arith, h.3), Sealed-AllBelow d i segs h.4)

pub Sealed-snoc :
    (d : Disk) (bound j : ℕ) (rs : List Record) (segs : List (ℕ × List Record))
    → Sealed d bound segs
    → AllWritable rs × (read_segment d j ≡ segment_of rs) × (has d j ≡ true) × (j < bound)
    → Sealed d bound (segs ++ (j, rs) ∷ [])
Sealed-snoc d bound j rs [] h new = (new.0, new.1, new.2, new.3, tt)
Sealed-snoc d bound j rs ((k, ks) ∷ segs) h new =
    (h.0, h.1, h.2, h.3, Sealed-snoc d bound j rs segs h.4 new)

pub indexes_of-snoc :
    (segs : List (ℕ × List Record)) (j : ℕ) (rs : List Record)
    → indexes_of (segs ++ (j, rs) ∷ []) ≡ indexes_of segs ++ j ∷ []
indexes_of-snoc [] j rs = refl
indexes_of-snoc ((k, ks) ∷ segs) j rs = ap (◌∷◌ k) (indexes_of-snoc segs j rs)

pub records_of-snoc :
    (segs : List (ℕ × List Record)) (j : ℕ) (rs : List Record)
    → records_of (segs ++ (j, rs) ∷ []) ≡ records_of segs ++ rs
records_of-snoc [] j rs = append-nil rs
records_of-snoc ((k, ks) ∷ segs) j rs =
    ap (λ xs. ks ++ xs) (records_of-snoc segs j rs) ∙ sym (append_assoc ks (records_of segs) rs)

-- A new empty segment behind a complete one.
unfoldable pub rotated :
    {disk : Disk} {acked : List Record} (r : Recoverable disk acked []) (i : ℕ)
    → r.last ≡ i
    → Recoverable (disk ++ ((i + 1, []) ∷ [])) acked []
rotated {disk} r i here =
    let new : Disk = (i + 1, []) ∷ [] in
    let sealed = rw here at r.sealed in
    let present = rw here at r.present in
    let complete : read_segment disk i ≡ segment_of r.cur =
      rw (take-nil, append-nil) at (rw here at r.bytes) in
    let order : indexes disk ≡ indexes_of r.segs ++ i ∷ [] = rw here at r.order in
    let below : AllBelow (i + 1) (indexes disk) = rw order (Sealed-AllBelow disk i r.segs sealed) in
    record {
      segs = r.segs ++ (i, r.cur) ∷ [];
      last = i + 1;
      cur = [];
      cut = 0;
      sealed =
          Sealed-snoc (disk ++ new) (i + 1) i r.cur r.segs
            (Sealed-append disk new i (i + 1) r.segs (omega arith) sealed)
            (
              rw append-nil at r.writable,
              read-append disk new i present ∙ complete,
              has-append disk new i ∙ ap (λ b. b || has new i) present,
              omega arith,
            );
      present = has_new disk (i + 1);
      order = indexes-append disk new ∙ rw (order, indexes_of-snoc);
      writable = tt;
      within = omega arith;
      bytes = read-append_new disk (i + 1) ∙ read_absent disk (i + 1) below;
      all = rw (r.all, records_of-snoc, append-nil);
    }
