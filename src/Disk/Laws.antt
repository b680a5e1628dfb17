-- ===== src/Disk/Laws.antt =====
-- Look-ups after a change of the map.
use opemail.Prelude.{◌≡◌, refl, true, false, none, some, [], ◌∷◌, arith}
use opemail.Paths.{FilePath, same}
use opemail.Paths.Inside.{same_sound, same_refl}
use opemail.Disk.{Node, Disk, node_at, erase, put}

pub node_at-erase : (p : FilePath) (d : Disk) → node_at p (erase p d) ≡ none
unfolding node_at erase
node_at-erase p [] = refl
node_at-erase p (e ∷ d) = let rest = node_at-erase p d in ground arith

-- two paths that differ are not the same
pub not_same : (p q r : FilePath) → same p q ≡ false → same r p ≡ true → same r q ≡ false
not_same p q r h e = let is : r ≡ p = same_sound r p e in rw is h

pub node_at-erase_other :
    (p q : FilePath) (d : Disk) → same p q ≡ false → node_at q (erase p d) ≡ node_at q d
unfolding node_at erase
node_at-erase_other p q [] h = refl
node_at-erase_other p q (e ∷ d) h =
    let rest = node_at-erase_other p q d h in ground (arith, not_same p q e.path h)

pub node_at-put : (p : FilePath) (n : Node) (d : Disk) → node_at p (put p n d) ≡ some n
unfolding node_at put
node_at-put p n d = rw (same_refl p) refl

pub node_at-put_other :
    (p q : FilePath) (n : Node) (d : Disk) → same p q ≡ false → node_at q (put p n d) ≡ node_at q d
unfolding node_at put
node_at-put_other p q n d h = rw h (node_at-erase_other p q d h)
