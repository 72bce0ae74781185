-- ===== src/Suggest/Examples.antt =====
-- A queue with one proposed edit of the actor 7, which the actor 3 reviews.
use origofs.Base.{
  ℕ, ◌+◌, false, ◌≡◌, refl, subst, [], ◌∷◌, Option, none, some, Text, text_eq, if◌then◌else◌, ok,
  text_discrete,
}
use origofs.ObjectGraph.{Hash}
use origofs.Vfs.{same_content}
use origofs.Suggest.{
  pending, accepted, rejected, superseded, of_bytes, Suggestion, Queue, is_pending, find_suggestion,
  resolve_rows, resolve_suggestion, record_event, ReviewCalls, or_superseded, supersede_one,
  supersede_loop, supersede_stale, apply_byte_suggestion, apply_suggestion, conclude, finish,
  accept_found, accept_suggestion, reject_suggestion, supersede_suggestion,
}
use origofs.Suggest.Rows.{resolve_suggestion-once}
use origofs.Suggest.Gates.{Gate, accept_suggestion-Gate}
use origofs.Suggest.Kept.{Reviewed, Keeps}
use origofs.Suggest.Review.{review-Reviewed}

abbrev a_path : Text
a_path = 97 ∷ []

abbrev an_edit : Suggestion
an_edit = record {
  id = 1;
  path = a_path;
  actor_id = 7;
  kind = of_bytes;
  base_hash = some (5 ∷ []);
  proposed_hash = some (6 ∷ []);
  status = pending;
  resolved_by = none;
}

abbrev a_rival : Suggestion
a_rival = record an_edit { id = 2; actor_id = 8; proposed_hash = none }

abbrev a_queue : Queue
a_queue = record {
  rows = an_edit ∷ a_rival ∷ [];
  files = λ p. if text_eq p a_path then some (5 ∷ []) else none;
  events = [];
}

abbrev moved_on : Queue
moved_on = record a_queue { files = λ p. some (9 ∷ []) }

abbrev put : Queue → Text → Option Hash → Queue
put q path h = record q { files = λ p. if text_eq p path then h else q.files p }

abbrev calls : ReviewCalls
calls = record {
  may_write = λ a p. ok tt;
  write_expecting = λ q a p h b. ok (put q p (some h));
  remove_unchecked = λ q a p. ok (put q p none);
  merge_document = λ q s. ok q;
  others = λ q. q;
}

abbrev authors : ℕ → ℕ
authors id = id + 6

calls-Keeps : Keeps authors calls
calls-Keeps = record {
  write = λ q t a p h b r e. let z : put q p (some h) ≡ t = cc in subst (Reviewed authors) z r;
  remove = λ q t a p r e. let z : put q p none ≡ t = cc in subst (Reviewed authors) z r;
  merge = λ q t s r e. let z : q ≡ t = cc in subst (Reviewed authors) z r;
  others = λ q r. r;
}

-- The acceptance lands the edit, and retires the other proposal.
accepted_edit : (accept_suggestion calls a_queue 1 3).1 ≡ ok (some (6 ∷ []))
unfolding accept_suggestion find_suggestion accept_found is_pending apply_suggestion
    apply_byte_suggestion same_content or_superseded finish conclude resolve_suggestion resolve_rows
    record_event supersede_stale supersede_loop supersede_one text_discrete
accepted_edit = refl

retired_rival :
    find_suggestion 2 (accept_suggestion calls a_queue 1 3).0.rows
    ≡ some (record a_rival { status = superseded; resolved_by = none })
unfolding accept_suggestion find_suggestion accept_found is_pending apply_suggestion
    apply_byte_suggestion same_content or_superseded finish conclude resolve_suggestion resolve_rows
    record_event supersede_stale supersede_loop supersede_one text_discrete
retired_rival = refl

pending-rejected : is_pending rejected ≡ false
unfolding is_pending
pending-rejected = refl

accept_suggestion-Gate_example :
    (s : Suggestion) × (find_suggestion 1 a_queue.rows ≡ some s) × Gate calls a_queue 3 s
accept_suggestion-Gate_example =
    accept_suggestion-Gate calls a_queue 1 3 (some (6 ∷ [])) accepted_edit

review-Reviewed_example :
    Reviewed authors (accept_suggestion calls a_queue 1 3).0
    × Reviewed authors (reject_suggestion calls a_queue 1 3).0
    × Reviewed authors (supersede_suggestion calls a_queue 1 3).0
review-Reviewed_example =
    review-Reviewed authors calls calls-Keeps a_queue 1 3 ((refl, λ e. cc), ((refl, λ e. cc), tt))

resolve_suggestion-once_example :
    resolve_suggestion 1 accepted (some 3) (resolve_suggestion 1 rejected (some 4) a_queue).1
    ≡ (false, (resolve_suggestion 1 rejected (some 4) a_queue).1)
resolve_suggestion-once_example =
    resolve_suggestion-once a_queue 1 rejected accepted (some 4) (some 3) pending-rejected
