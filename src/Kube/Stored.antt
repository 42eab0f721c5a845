-- ===== src/Kube/Stored.antt =====
-- What the program relies on of the client: that it serves a store of objects, in which a patch made
-- from an object and its changed copy puts the copy in the object's place.
use cluster_turndown.Prelude.{◌≡◌, List, [], ◌∷◌, ◌++◌, All, ok}
use cluster_turndown.Kube.{Client, Named}

-- Two objects of one namespace and name.
abbrev pub SameName : {D : Type 0} → Named D → D → D → Type 0
SameName n d e = (n.namespace_of d ≡ n.namespace_of e) × (n.name_of d ≡ n.name_of e)

-- No object of the list has the name of `d`.
abbrev pub Absent : {D : Type 0} → Named D → D → List D → Type 0
Absent n d = All (λ e. ¬ SameName n d e)

-- No two objects of a list have one name.
abbrev pub Distinct : {D : Type 0} → Named D → List D → Type 0
Distinct n [] = Unit {0}
Distinct n (d ∷ ds) = Absent n d ds × Distinct n ds

-- `objects w` is what the store holds in the world `w`: it is listed in full, objects can be encoded,
-- and the patch from `d` to `d'`, sent under their name, replaces `d` and nothing else.
pub record Serves {W D : Type 0} (c : Client W D) (n : Named D) (objects : W → List D)
    : Type 0 where
  pub lists : (w : W) → c.list w ≡ ok (objects w)
  pub encode : D → c.Bytes
  pub encodes : (d : D) → c.marshal d ≡ ok (encode d)
  pub difference : D → D → c.Patch
  pub differs : (d d' : D) → c.two_way_patch (encode d) (encode d') d' ≡ ok (difference d d')
  pub replaces :
      (w : W) (pre post : List D) (d d' : D)
      → objects w ≡ pre ++ d ∷ post
      → Absent n d pre
      → SameName n d d'
      → let sent = c.patch (n.namespace_of d) (n.name_of d) (difference d d') w in
        (sent.0 ≡ ok d') × (objects sent.1 ≡ pre ++ d' ∷ post)
