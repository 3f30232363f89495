-- ===== src/Drm/Paths.antt =====
-- The paths that the constructor of `DRMNode` of src/drm/drm.cc picks among the entries of a
-- directory.
use rocsift_glog_fork.Common.{
  Bool, Bool-cases, List, [], arith, false, if◌then◌else◌, inl, inr, refl, sym, true, ◌&&◌, ◌∙◌,
  ◌∷◌, ◌≡◌,
}
use rocsift_glog_fork.Drm.{
  DrmSysfsNode, XgmiInfo, begins, card, classify, classify_all, new_node, render,
}
use rocsift_glog_fork.Drm.Files.{FilePath, FileSystem, Name}

abbrev or_path : FilePath → FilePath → FilePath
or_path [] q = q
or_path (n ∷ p) q = n ∷ p

or_path-nil : (p : FilePath) → or_path p [] ≡ p
or_path-nil [] = refl
or_path-nil (n ∷ p) = refl

-- The first directory whose name passes a test.
abbrev pub first_dir : FileSystem → FilePath → (Name → Bool) → List Name → FilePath
first_dir fs dir test [] = []
first_dir fs dir test (m ∷ ms) =
    let later = first_dir fs dir test ms in
    if fs.is_directory (m ∷ dir) && test m then m ∷ dir else later

-- The entries without that one, if it is still to be picked.
abbrev pub others : FileSystem → FilePath → (Name → Bool) → FilePath → List Name → List Name
others fs dir test (n ∷ p) ms = ms
others fs dir test [] [] = []
others fs dir test [] (m ∷ ms) =
    let later = others fs dir test [] ms in
    if fs.is_directory (m ∷ dir) && test m then ms else m ∷ later

abbrev any_name : Name → Bool
any_name m = true

module _ (fs : FileSystem) (dir : FilePath) where
  abbrev card_of : FilePath → List Name → FilePath
  card_of c ms = or_path c (first_dir fs dir (begins card) ms)

  abbrev render_of : FilePath → List Name → FilePath
  render_of r ms = or_path r (first_dir fs dir (begins render) ms)

  abbrev control_of : FilePath → FilePath → FilePath → List Name → FilePath
  control_of c r t ms = or_path t (
      first_dir fs dir any_name
        (others fs dir (begins render) r (others fs dir (begins card) c ms)))

  card-render : (m : Name) → begins card m ≡ true → begins render m ≡ false
  card-render [] h = refl
  card-render (x ∷ m) h = ground arith

  abbrev node_with : FilePath → XgmiInfo → FilePath → FilePath → FilePath → DrmSysfsNode
  node_with p x c r t = record {
    path = p;
    xgmi = x;
    card_path = c;
    render_path = r;
    control_path = t;
  }

  nothing_left : (c r t : FilePath) → control_of c r t [] ≡ t
  nothing_left [] [] [] = refl
  nothing_left [] (l ∷ r) [] = refl
  nothing_left (k ∷ c) [] [] = refl
  nothing_left (k ∷ c) (l ∷ r) [] = refl
  nothing_left c r (j ∷ t) = refl

  -- A round of the loop takes the first entry.
  card_step :
      (m : Name) (ms : List Name) (p : FilePath) (x : XgmiInfo) (c r t : FilePath)
      → card_of (classify fs dir m (node_with p x c r t)).card_path ms ≡ card_of c (m ∷ ms)
  unfolding classify
  card_step m ms p x [] r t = ground arith
  card_step m ms p x (k ∷ c) r t = ground arith

  render_step :
      (m : Name) (ms : List Name) (p : FilePath) (x : XgmiInfo) (c r t : FilePath)
      → render_of (classify fs dir m (node_with p x c r t)).render_path ms ≡ render_of r (m ∷ ms)
  unfolding classify
  render_step m ms p x c [] t = ground (arith, card-render m)
  render_step m ms p x c (k ∷ r) t = ground arith

  abbrev control_at : DrmSysfsNode → List Name → FilePath
  control_at n ms = control_of n.card_path n.render_path n.control_path ms

  control_step :
      (m : Name) (ms : List Name) (p : FilePath) (x : XgmiInfo) (c r t : FilePath)
      → control_at (classify fs dir m (node_with p x c r t)) ms ≡ control_of c r t (m ∷ ms)
  unfolding classify
  control_step m ms p x [] [] [] = elim (Bool-cases (fs.is_directory (m ∷ dir))) [
    | inr d ↦ rw (classify, d) (rw d (rw d refl))
    | inl d ↦ elim (Bool-cases (begins card m)) [
      | inl b ↦ rw (classify, d, b) refl
      | inr b ↦ elim (Bool-cases (begins render m)) [
        | inl e ↦ rw (classify, d, b, e) (rw d refl)
        | inr e ↦ rw (classify, d, b, e) (rw d (rw d refl))
      ]
    ]
  ]
  control_step m ms p x [] (l ∷ r) [] = ground arith
  control_step m ms p x (k ∷ c) [] [] = ground arith
  control_step m ms p x (k ∷ c) (l ∷ r) [] = ground arith
  control_step m ms p x c r (j ∷ t) = ground arith

  card_lem :
      (ms : List Name) (n : DrmSysfsNode)
      → (classify_all fs dir ms n).card_path ≡ card_of n.card_path ms
  unfolding classify_all
  card_lem [] n = sym (or_path-nil n.card_path)
  card_lem (m ∷ ms) n =
      card_lem ms (classify fs dir m n)
      ∙ card_step m ms n.path n.xgmi n.card_path n.render_path n.control_path

  render_lem :
      (ms : List Name) (n : DrmSysfsNode)
      → (classify_all fs dir ms n).render_path ≡ render_of n.render_path ms
  unfolding classify_all
  render_lem [] n = sym (or_path-nil n.render_path)
  render_lem (m ∷ ms) n =
      render_lem ms (classify fs dir m n)
      ∙ render_step m ms n.path n.xgmi n.card_path n.render_path n.control_path

  control_lem :
      (ms : List Name) (n : DrmSysfsNode)
      → (classify_all fs dir ms n).control_path ≡ control_at n ms
  unfolding classify_all
  control_lem [] n = sym (nothing_left n.card_path n.render_path n.control_path)
  control_lem (m ∷ ms) n =
      control_lem ms (classify fs dir m n)
      ∙ control_step m ms n.path n.xgmi n.card_path n.render_path n.control_path

  -- The constructor of `DRMNode` picks, in the order in which the entries come, the first directory
  -- whose name begins with "card", the first whose name begins with "render", and as the control path
  -- the first directory that is neither of these, whatever its name.
  pub classify_all-picks :
      (path : FilePath) (ms : List Name)
      → let n = classify_all fs dir ms (new_node path) in
        (n.card_path ≡ first_dir fs dir (begins card) ms)
        × (n.render_path ≡ first_dir fs dir (begins render) ms)
        × (n.control_path
            ≡ first_dir fs dir any_name
                (others fs dir (begins render) [] (others fs dir (begins card) [] ms)))
  classify_all-picks path ms =
      (card_lem ms (new_node path), render_lem ms (new_node path), control_lem ms (new_node path))
