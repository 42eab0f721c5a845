-- ===== src/Pools/Aws/ClusterData/Template.antt =====
-- pkg/cluster/provider/awsclusterprovider.go: the template that is made of user data, filled in.
use Prim.Native.Char.{code}
use Prim.Native.String.{◌++◌ as str_append}
use text.Mathlib.TextLemmas.{nil-append, cons-append, append_assoc as str_assoc}
use cluster_turndown.Prelude.{
  String, ◌≡◌, refl, sym, ap, ◌∙◌, inl, inr, Bool, true, false, some, List, [], ◌∷◌, ◌++◌,
  append-nil, append_assoc, arith, str_eq, eq_iff, ◌==◌, if◌then◌else◌, Bool-cases, All, All-append,
}
use cluster_turndown.Strconv.{put_first}
use cluster_turndown.Pools.Gke.Metadata.{trim_space, split_colon}
use cluster_turndown.Pools.Aws.ClusterData.{
  Part, first_part, second_part, end_part, Reading, group_line, name_line, config_line, other_line,
  read_lines, append_line, config_base, line_kind, read_line, read_all, join, new_reading,
}

-- A text with one line feed, at its end.
unfoldable pub is_line : String → Bool
is_line String.[] = false
is_line (String.◌∷◌ c s) = let rest = is_line s in if code c == 10 then str_eq s "" else rest

abbrev pub IsLine : String → Type 0
IsLine l = is_line l ≡ true

read_lines-append : (l s : String) → IsLine l → read_lines (str_append l s) ≡ l ∷ read_lines s
unfolding read_lines put_first is_line
read_lines-append String.[] s h = ground (arith, h)
read_lines-append (String.◌∷◌ c l) s h = elim (Bool-cases (code c == 10)) [
  | inl feed ↦
      let last : str_eq l "" ≡ true = rw feed at h in
      rw cons-append (rw ((eq_iff l "").0 last) (rw nil-append (ground (arith, feed))))
  | inr other ↦
      let line : is_line l ≡ true = rw other at h in
      rw cons-append (ground (arith, other, read_lines-append l s line))
]

pub read_lines-join : (ls : List String) → All IsLine ls → read_lines (join ls) ≡ ls
unfolding read_lines join
read_lines-join [] h = refl
read_lines-join (l ∷ ls) (h, hs) =
    read_lines-append l (join ls) h ∙ ap (λ r. l ∷ r) (read_lines-join ls hs)

pub join-append : (xs ys : List String) → join (xs ++ ys) ≡ str_append (join xs) (join ys)
unfolding join
join-append [] ys = sym (nil-append (join ys))
join-append (x ∷ xs) ys =
    ap (str_append x) (join-append xs ys) ∙ sym (str_assoc x (join xs) (join ys))

-- A line of neither kind that divides the script, and without a value to read.
abbrev pub IsOther : String → Type 0
IsOther l = IsLine l × (line_kind l ≡ other_line)

module _ (bucket name : String) where
  abbrev pub reading : List String → List String → List String → Part → Reading
  reading fs ss es part = record {
    first = fs;
    second = ss;
    end = es;
    current = part;
    cluster_bucket = bucket;
    cluster_name = name;
  }

  -- Such lines are appended to the current part.
  read_all-first :
      (ls rest fs ss es : List String)
      → All IsOther ls
      → read_all (ls ++ rest) (reading fs ss es first_part)
        ≡ read_all rest (reading (fs ++ ls) ss es first_part)
  unfolding read_all read_line append_line
  read_all-first [] rest fs ss es h = rw append-nil refl
  read_all-first (l ∷ ls) rest fs ss es ((line, other), hs) =
      rw (read_all, read_line, other)
        (read_all-first ls rest (fs ++ l ∷ []) ss es hs ∙ rw append_assoc refl)

  read_all-second :
      (ls rest fs ss es : List String)
      → All IsOther ls
      → read_all (ls ++ rest) (reading fs ss es second_part)
        ≡ read_all rest (reading fs (ss ++ ls) es second_part)
  unfolding read_all read_line append_line
  read_all-second [] rest fs ss es h = rw append-nil refl
  read_all-second (l ∷ ls) rest fs ss es ((line, other), hs) =
      rw (read_all, read_line, other)
        (read_all-second ls rest fs (ss ++ l ∷ []) es hs ∙ rw append_assoc refl)

  read_all-end :
      (ls fs ss es : List String)
      → All IsOther ls
      → read_all ls (reading fs ss es end_part) ≡ some (reading fs ss (es ++ ls) end_part)
  unfolding read_all read_line append_line
  read_all-end [] fs ss es h = rw append-nil refl
  read_all-end (l ∷ ls) fs ss es ((line, other), hs) =
      rw (read_all, read_line, other)
        (read_all-end ls fs ss (es ++ l ∷ []) hs ∙ rw append_assoc refl)

-- A script that has, in this order, lines, a line with the group, lines, one with the bucket and the name of
-- the cluster, lines, a line with the name of the group, and lines.
pub record Script : Type 0 where
  pub before : List String
  pub group : String
  pub middle : List String
  pub config : String
  pub rest : List String
  pub named : String
  pub after : List String

-- What follows the line with the group, the one of the cluster, and the one with the name of the group.
abbrev pub lines_from_config : String → Script → List String
lines_from_config named s = s.config ∷ (s.rest ++ (named ∷ s.after))

-- Its lines, with the two lines of the group as they are given.
abbrev pub lines_with : String → String → Script → List String
lines_with group named s = s.before ++ (group ∷ (s.middle ++ lines_from_config named s))

pub record IsScript (s : Script) (bucket name : String) : Type 0 where
  pub before : All IsOther s.before
  pub middle : All IsOther s.middle
  pub rest : All IsOther s.rest
  pub after : All IsOther s.after
  pub group : IsLine s.group × (line_kind s.group ≡ group_line)
  pub named : IsLine s.named × (line_kind s.named ≡ name_line)
  pub config : IsLine s.config × (line_kind s.config ≡ config_line)
  pub value : config_base (split_colon (trim_space s.config)) ≡ some (some (bucket, name))

All-IsLine : (ls : List String) → All IsOther ls → All IsLine ls
All-IsLine [] h = tt
All-IsLine (l ∷ ls) ((line, other), hs) = (line, All-IsLine ls hs)

module _ (s : Script) (bucket name : String) (h : IsScript s bucket name) where
  pub lines_with-IsLine : All IsLine (lines_with s.group s.named s)
  lines_with-IsLine =
      All-append IsLine s.before (s.group ∷ (s.middle ++ lines_from_config s.named s))
        (All-IsLine s.before h.before)
        (
          h.group.0,
          All-append IsLine s.middle (lines_from_config s.named s) (All-IsLine s.middle h.middle) (
            h.config.0,
            All-append IsLine s.rest (s.named ∷ s.after) (All-IsLine s.rest h.rest)
                (h.named.0, All-IsLine s.after h.after),
          ),
        )

  pub read_all-lines_with :
      read_all (lines_with s.group s.named s) new_reading
      ≡ some (reading bucket name s.before (s.middle ++ s.config ∷ s.rest) s.after end_part)
  unfolding new_reading read_all read_line append_line
  read_all-lines_with =
      read_all-first "" "" s.before (s.group ∷ (s.middle ++ lines_from_config s.named s)) [] [] []
        h.before
      ∙ rw (read_all, read_line, h.group.1)
          (read_all-second "" "" s.middle (lines_from_config s.named s) s.before [] [] h.middle
            ∙ rw (read_all, read_line, h.config.1, h.value)
                (read_all-second bucket name s.rest (s.named ∷ s.after) s.before
                    (s.middle ++ s.config ∷ []) [] h.rest
                  ∙ rw (read_all, read_line, h.named.1)
                      (rw append_assoc (
                        read_all-end bucket name s.after s.before (s.middle ++ s.config ∷ s.rest) []
                          h.after))))
