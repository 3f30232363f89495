-- ===== src/Drm/Sorted.antt =====
-- The hive of the last DRM node of src/drm/drm.cc, whose list is sorted when all numbers are read.
use rocsift_glog_fork.Common.{
  Bool-cases, List, [], arith, get_elem?, inl, inr, ltb, ltb→lt, refl, set, some, suc, zero, ℕ, ◌<◌,
  ◌∷◌, ◌≡◌, ◌≤◌,
}
use rocsift_glog_fork.Drm.{DrmSysfsNode}
use rocsift_glog_fork.Drm.Hive.{insert_peer, physical_id_at, sort_peers}

abbrev AllAbove : List DrmSysfsNode → ℕ → List ℕ → Type 0
AllAbove ns k [] = Unit
AllAbove ns k (j ∷ js) = (physical_id_at ns k ≤ physical_id_at ns j) × AllAbove ns k js

-- The nodes behind the places stand in the order of `physical_id`.
abbrev pub ByPhysicalId : List DrmSysfsNode → List ℕ → Type 0
ByPhysicalId ns [] = Unit
ByPhysicalId ns (k ∷ ks) = AllAbove ns k ks × ByPhysicalId ns ks

AllAbove-trans :
    (ns : List DrmSysfsNode) (k j : ℕ) (js : List ℕ)
    → physical_id_at ns k ≤ physical_id_at ns j
    → AllAbove ns j js
    → AllAbove ns k js
AllAbove-trans ns k j [] h a = tt
AllAbove-trans ns k j (i ∷ is) h a = (omega (arith, a.0), AllAbove-trans ns k j is h a.1)

insert-AllAbove :
    (ns : List DrmSysfsNode) (j k : ℕ) (js : List ℕ)
    → physical_id_at ns j ≤ physical_id_at ns k
    → AllAbove ns j js
    → AllAbove ns j (insert_peer ns k js)
unfolding insert_peer
insert-AllAbove ns j k [] h a = (h, tt)
insert-AllAbove ns j k (i ∷ is) h a =
    elim (Bool-cases (ltb (physical_id_at ns i) (physical_id_at ns k))) [
      | inl t ↦ rw (insert_peer, t) (a.0, insert-AllAbove ns j k is h a.1)
      | inr f ↦ rw (insert_peer, f) (h, a)
    ]

insert-ByPhysicalId :
    (ns : List DrmSysfsNode) (k : ℕ) (js : List ℕ)
    → ByPhysicalId ns js
    → ByPhysicalId ns (insert_peer ns k js)
unfolding insert_peer
insert-ByPhysicalId ns k [] s = (tt, tt)
insert-ByPhysicalId ns k (j ∷ js) s =
    elim (Bool-cases (ltb (physical_id_at ns j) (physical_id_at ns k))) [
      | inl t ↦
          let less = ltb→lt (physical_id_at ns j) (physical_id_at ns k) t in
          rw (insert_peer, t)
            (insert-AllAbove ns j k js (omega arith) s.0, insert-ByPhysicalId ns k js s.1)
      | inr f ↦
          let not_less : physical_id_at ns k ≤ physical_id_at ns j = ground arith in
          rw (insert_peer, f) ((not_less, AllAbove-trans ns k j js not_less s.0), s)
    ]

pub sort-ByPhysicalId : (ns : List DrmSysfsNode) (ks : List ℕ) → ByPhysicalId ns (sort_peers ns ks)
unfolding sort_peers
sort-ByPhysicalId ns [] = tt
sort-ByPhysicalId ns (k ∷ ks) =
    insert-ByPhysicalId ns k (sort_peers ns ks) (sort-ByPhysicalId ns ks)

-- The order does not depend on more of the nodes than their numbers.
AllAbove-ids :
    (ns ms : List DrmSysfsNode) (k : ℕ) (js : List ℕ)
    → ((j : ℕ) → physical_id_at ms j ≡ physical_id_at ns j)
    → AllAbove ns k js
    → AllAbove ms k js
AllAbove-ids ns ms k [] h a = tt
AllAbove-ids ns ms k (j ∷ js) h a = (omega (arith, a.0, h k, h j), AllAbove-ids ns ms k js h a.1)

pub ByPhysicalId-ids :
    (ns ms : List DrmSysfsNode) (ks : List ℕ)
    → ((j : ℕ) → physical_id_at ms j ≡ physical_id_at ns j)
    → ByPhysicalId ns ks
    → ByPhysicalId ms ks
ByPhysicalId-ids ns ms [] h s = tt
ByPhysicalId-ids ns ms (k ∷ ks) h s =
    (AllAbove-ids ns ms k ks h s.0, ByPhysicalId-ids ns ms ks h s.1)

pub ids-set :
    (ns : List DrmSysfsNode) (i : ℕ) (m l : DrmSysfsNode) (j : ℕ)
    → m.xgmi.physical_id ≡ l.xgmi.physical_id
    → physical_id_at (set ns i m) j ≡ physical_id_at (set ns i l) j
ids-set [] i m l j e = refl
ids-set (x ∷ ns) zero m l zero e = e
ids-set (x ∷ ns) zero m l (suc j) e = refl
ids-set (x ∷ ns) (suc i) m l zero e = refl
ids-set (x ∷ ns) (suc i) m l (suc j) e = ids-set ns i m l j e

pub get-set :
    (ns : List DrmSysfsNode) (i : ℕ) (m n : DrmSysfsNode)
    → get_elem? (set ns i m) i ≡ some n
    → m ≡ n
get-set [] i m n e = absurd cc
get-set (x ∷ ns) zero m n e = cc
get-set (x ∷ ns) (suc i) m n e = get-set ns i m n e

pub get-set_other :
    (ns : List DrmSysfsNode) (i j : ℕ) (m : DrmSysfsNode)
    → i < j
    → get_elem? (set ns i m) j ≡ get_elem? ns j
get-set_other [] i j m l = refl
get-set_other (x ∷ ns) zero zero m l = absurd (omega arith)
get-set_other (x ∷ ns) zero (suc j) m l = refl
get-set_other (x ∷ ns) (suc i) zero m l = absurd (omega arith)
get-set_other (x ∷ ns) (suc i) (suc j) m l = get-set_other ns i j m (omega arith)
