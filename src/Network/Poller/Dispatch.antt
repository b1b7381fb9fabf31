-- ===== src/Network/Poller/Dispatch.antt =====
-- Which handlers a round of the loop calls.
use mathlib.Core.List.{append-nil, append_assoc}
use alphadb.Prelude.{
  ℕ, zero, suc, ◌≡◌, refl, ap, sym, ◌∙◌, Option, none, some, List, [], ◌∷◌, ◌++◌, get_elem?, length,
}
use alphadb.Network.Poller.{Event, Handled, handle, handle_first, handle_from, loop_once}

-- The handlers of the events from the last one to the first.
unfoldable pub backwards : List Event → List Handled
backwards [] = []
backwards (e ∷ es) = backwards es ++ handle e

handle_first-append :
    (o : Option Event) (l m : List Handled) → handle_first o (l ++ m) ≡ handle_first o l ++ m
unfolding handle_first
handle_first-append none l m = refl
handle_first-append (some e) l m = sym (append_assoc (handle e) l m)

handle_from-cons :
    (e : Event) (es : List Event) (n : ℕ)
    → handle_from (e ∷ es) (suc n) ≡ handle_from es n ++ handle e
unfolding handle_from handle_first
handle_from-cons e es zero = append-nil (handle e)
handle_from-cons e es (suc n) =
    ap (handle_first (get_elem? es n)) (handle_from-cons e es n)
    ∙ handle_first-append (get_elem? es n) (handle_from es n) (handle e)

-- A round calls the handlers of the events from the last one to the first.
pub loop_once-backwards : (events : List Event) → loop_once events ≡ backwards events
unfolding loop_once backwards handle_from
loop_once-backwards [] = refl
loop_once-backwards (e ∷ es) =
    handle_from-cons e es (length es) ∙ ap (λ l. l ++ handle e) (loop_once-backwards es)
