-- ===== src/Dashboard/Page/Sequences.antt =====
-- Scripts that make one library call after another: how far they get, and what is on record then.
use mathlib.Core.List.{append-nil, append_assoc}
use toyhoodle.Prelude.{◌≡◌, refl, Bool, List, [], ◌∷◌, ◌++◌, arith, if◌then◌else◌}
use toyhoodle.Dashboard.Value.{all}
use toyhoodle.Dashboard.Page.{Page, Browser, Script, Outcome, done, threw, Call, ◌>>◌, perform}

-- The calls that are made of a row of calls: those up to the first that throws, itself included.
unfoldable pub attempted : (Call → Bool) → List Call → List Call
attempted returns [] = []
attempted returns (c ∷ cs) = c ∷ (if returns c then attempted returns cs else [])

abbrev pub outcome : Bool → Outcome
outcome ok = if ok then done else threw

unfoldable pub perform_all : Browser → List Call → Script
perform_all b [] p = (done, p)
perform_all b (c ∷ cs) p = (perform b c >> perform_all b cs) p

abbrev pub add_calls : Page → List Call → Page
add_calls p cs = record p { calls = p.calls ++ cs }

pub perform_all_lem :
    (b : Browser) (cs : List Call) (p : Page)
    → perform_all b cs p ≡ (outcome (all b.returns cs), add_calls p (attempted b.returns cs))
unfolding perform_all perform attempted
perform_all_lem b [] p = rw (append-nil p.calls) refl
perform_all_lem b (c ∷ cs) p = ground (
  arith,
  perform_all_lem b cs (add_calls p (c ∷ [])),
  append_assoc p.calls (c ∷ []) (attempted b.returns cs),
)

pub >>_assoc : (l m n : Script) (p : Page) → (l >> m >> n) p ≡ (l >> (λ q. (m >> n) q)) p
>>_assoc l m n p = ground arith
