-- ===== src/Pools/Aws/ClusterData/Filled.antt =====
-- pkg/cluster/provider/awsclusterprovider.go: user data that is read for its template, and what the template
-- is filled in to. The encoding in base 64 is measured by the laws below.
use text.Mathlib.TextLemmas.{append-nil as str_append_nil, append_assoc as str_assoc}
use cluster_turndown.Prelude.{
  String, ◌≡◌, refl, sym, ap, ◌∙◌, ◌≢◌, inl, inr, some, List, [], ◌∷◌, ◌++◌, str_eq, eq_iff,
  Bool-cases,
}
use cluster_turndown.Pools.Aws.ClusterData.{
  AwsClusterData, end_part, read_lines, join, keep_reading, Base64, instance_group_line,
  group_name_line, update_user_data, get_user_data,
}
use cluster_turndown.Pools.Aws.ClusterData.Template.{
  Script, IsScript, lines_with, lines_from_config, reading, lines_with-IsLine, read_all-lines_with,
  read_lines-join, join-append,
}

-- What `encoding/base64` says: decoding takes an encoding back, and only of nothing is the encoding empty.
pub record IsEncoding (b64 : Base64) : Type 0 where
  pub decode-encode : (s : String) → b64.decode (b64.encode s) ≡ some s
  pub nonempty : (s : String) → b64.encode s ≡ "" → s ≡ ""

no_lines : (xs ys : List String) (y : String) → [] ≢ xs ++ y ∷ ys
no_lines [] ys y e = cc e
no_lines (x ∷ xs) ys y e = cc e

-- The parts of a template around two lines are a text of lines.
join_parts :
    (group named : String) (s : Script)
    → join
        (join s.before ∷ group ∷ join (s.middle ++ (s.config ∷ s.rest)) ∷ named ∷ join s.after ∷ [])
      ≡ join (lines_with group named s)
unfolding join
join_parts group named s = simp (join-append, join, str_append_nil, str_assoc) refl

module _ (b64 : Base64) (law : IsEncoding b64) (s : Script) (bucket name : String)
    (h : IsScript s bucket name) where
  text_nonempty : join (lines_with s.group s.named s) ≢ ""
  unfolding read_lines
  text_nonempty e = no_lines s.before (s.middle ++ lines_from_config s.named s) s.group (
      sym (ap read_lines e)
      ∙ read_lines-join (lines_with s.group s.named s) (lines_with-IsLine s bucket name h))

  update_user_data-kept :
      (p : AwsClusterData)
      → update_user_data b64 (b64.encode (join (lines_with s.group s.named s))) p
        ≡ some (
            keep_reading
              (reading bucket name s.before (s.middle ++ s.config ∷ s.rest) s.after end_part)
              p)
  unfolding update_user_data
  update_user_data-kept p =
      elim (Bool-cases (str_eq (b64.encode (join (lines_with s.group s.named s))) "")) [
        | inl empty ↦ elim (text_nonempty (law.nonempty _ ((eq_iff _ _).0 empty))) [ ]
        | inr full ↦
            rw (full, law.decode-encode)
              (rw
                (read_lines-join (lines_with s.group s.named s) (lines_with-IsLine s bucket name h))
                (rw (read_all-lines_with s bucket name h) refl))
      ]

  -- Of user data that is a script, with the lines of any group, the template that is kept gives, filled in
  -- with a group, the encoding of the same script with the two lines of that group in place of its own and
  -- all other lines as they were; and the bucket and the name of the cluster are those of the script.
  pub get_user_data-update_user_data :
      (p : AwsClusterData) (group : String)
      → (p' : AwsClusterData) × (update_user_data b64
            (b64.encode (join (lines_with s.group s.named s)))
            p
          ≡ some p')
        × (get_user_data b64 group p'
            ≡ b64.encode (join (lines_with (instance_group_line group) (group_name_line group) s)))
        × (p'.cluster_bucket ≡ bucket)
        × (p'.cluster_name ≡ name)
  unfolding get_user_data keep_reading
  get_user_data-update_user_data p group = (
    _,
    update_user_data-kept p,
    ap b64.encode (join_parts (instance_group_line group) (group_name_line group) s),
    refl,
    refl,
  )
