-- ===== src/Kube/Aggregate.antt =====
-- pkg/cluster/helper/helper.go: errors that hold several, and others.
use Prim.Native.String.{◌++◌ as str_append}
use cluster_turndown.Prelude.{ℕ, ◌+◌, String, Bool, true, false, List, [], ◌∷◌, map, pos, Error}
use cluster_turndown.Strconv.{format_int}

-- `aggError` beside the errors of one message.
pub data AnyError : Type 0 where
  plain : Error → AnyError
  agg_error : List Error → AnyError

-- The messages with their numbers, with an empty line between two.
unfoldable pub agg_messages : ℕ → List Error → String
agg_messages i [] = ""
agg_messages i (e ∷ []) =
    str_append (format_int (pos (i + 1))) (str_append ") " (str_append e.message "\n"))
agg_messages i (e ∷ f ∷ es) =
    str_append (format_int (pos (i + 1)))
      (str_append ") " (str_append e.message (str_append "\n\n" (agg_messages (i + 1) (f ∷ es)))))

unfoldable pub error_text : AnyError → String
unfolding agg_messages
error_text (plain e) = e.message
error_text (agg_error es) = agg_messages 0 es

unfoldable pub is_aggregate_error : AnyError → Bool
is_aggregate_error (plain e) = false
is_aggregate_error (agg_error es) = true

-- An error of its own is the only one of itself.
unfoldable pub get_aggregate_errors : AnyError → List AnyError
get_aggregate_errors (plain e) = plain e ∷ []
get_aggregate_errors (agg_error es) = map plain es
