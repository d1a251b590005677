-- ===== src/Submission/Worker/Steps.antt =====
-- What every step of a job keeps, whatever the other processes do meanwhile. A submission that is
-- missing counts as `requested`, which is how it is created.
use billing_api.Common.{
  ℕ, ◌+◌, ◌*◌, ◌≤◌, ◌≡◌, ◌∙◌, sym, ap, inl, inr, refl, Bool, true, false, Option, none, some, List,
  [], ◌∷◌, Result, ok, err, ◌>>=◌, if◌then◌else◌, Option-cases, arith,
}
use billing_api.Submission.StateMachine.{FiscalSubmissionStatus, requested, is_terminal, has}
use billing_api.Submission.Provider.{HaciendaSubmissionResult}
use billing_api.Submission.State.{
  FiscalSubmission, Event, posted, Tables, Upload, apply_provider_result, apply_transition,
  commit_result, follow_up,
}
use billing_api.Submission.State.Terminal.{
  Agree, Agree-ext, tables_of, apply_provider_result-terminal,
}

abbrev pub status_of : Option FiscalSubmission → FiscalSubmissionStatus
status_of none = requested
status_of (some row) = row.status

abbrev pub attempts : Option FiscalSubmission → ℕ
attempts none = 0
attempts (some row) = row.attempt_count

-- The POSTs that were sent.
abbrev pub posts : List Event → ℕ
posts [] = 0
posts (posted ∷ es) = posts es + 1
posts (_ ∷ es) = posts es

-- What is kept of the status and the document.
abbrev pub Settled : Tables → Tables → Type 0
Settled t t' =
    (Agree (status_of t.submission) t.document → Agree (status_of t'.submission) t'.document)
    × (is_terminal (status_of t.submission) ≡ true
        → (status_of t'.submission ≡ status_of t.submission) × (t'.document ≡ t.document))

-- A change that keeps the status and the document, sends at most `spent` POSTs that no attempt of
-- its own allows, and allows `earned` that it does not send.
abbrev pub Within : ℕ → ℕ → Tables → Tables → Type 0
Within spent earned t t' =
    Settled t t'
    × (posts t'.events + 2 * attempts t.submission + earned
        ≤ posts t.events + 2 * attempts t'.submission + spent)

abbrev pub Later : Tables → Tables → Type 0
Later t t' = Within 0 0 t t'

Settled-ext :
    (t t' : Tables)
    → status_of t'.submission ≡ status_of t.submission
    → t'.document ≡ t.document
    → Settled t t'
Settled-ext t t' es ed = (
  λ h. Agree-ext (status_of t.submission) (status_of t'.submission) t.document t'.document es ed h,
  λ h. (es, ed),
)

-- The same, from the two statuses.
Settled-as :
    (t t' : Tables) (a b : FiscalSubmissionStatus)
    → status_of t.submission ≡ a
    → status_of t'.submission ≡ b
    → (Agree a t.document → Agree b t'.document)
    → (is_terminal a ≡ true → (b ≡ a) × (t'.document ≡ t.document))
    → Settled t t'
Settled-as t t' a b ea eb agree keep = (
  λ h.
      Agree-ext b (status_of t'.submission) t'.document t'.document eb refl
        (agree (Agree-ext (status_of t.submission) a t.document t.document (sym ea) refl h)),
  λ h. let (es, ed) = keep (ap is_terminal (sym ea) ∙ h) in (eb ∙ es ∙ sym ea, ed),
)

-- A change from one status that is not terminal to another.
pub Settled-open :
    (t t' : Tables) (a b : FiscalSubmissionStatus)
    → status_of t.submission ≡ a
    → status_of t'.submission ≡ b
    → is_terminal a ≡ false
    → is_terminal b ≡ false
    → t'.document ≡ t.document
    → Settled t t'
unfolding is_terminal has
Settled-open t t' a b ea eb oa ob ed =
    Settled-as t t' a b ea eb (λ (x, y, z). ground arith) (λ h. ground arith)

Settled-trans : (t t' t'' : Tables) → Settled t t' → Settled t' t'' → Settled t t''
Settled-trans t t' t'' (a, k) (a', k') = (
  λ h. a' (a h),
  λ h. let (es, ed) = k h in let (es', ed') = k' (ap is_terminal es ∙ h) in (es' ∙ es, ed' ∙ ed),
)

pub Within-trans :
    (a b c d : ℕ) (t t' t'' : Tables)
    → Within a b t t'
    → Within c d t' t''
    → Within (a + c) (b + d) t t''
Within-trans a b c d t t' t'' (s, le) (s', le') = (Settled-trans t t' t'' s s', omega arith)

pub Within-weaken :
    (a b c d : ℕ) (t t' : Tables) → a + d ≤ b + c → Within a c t t' → Within b d t t'
Within-weaken a b c d t t' le (s, le') = (s, omega arith)

-- A change of the row that keeps its status and attempts, or of what is not the row.
pub Within-same :
    (t t' : Tables)
    → status_of t'.submission ≡ status_of t.submission
    → attempts t'.submission ≡ attempts t.submission
    → t'.document ≡ t.document
    → posts t'.events ≡ posts t.events
    → Later t t'
Within-same t t' es ea ed ep = (Settled-ext t t' es ed, omega arith)

-- A call that finds no row at its transaction changes neither row nor document.
apply_provider_result-missing :
    (now : ℕ) (upload : Upload) (seen : Option FiscalSubmission) (result : HaciendaSubmissionResult)
    (t : Tables)
    → t.submission ≡ none
    → ((tables_of (apply_provider_result now upload seen result t)).submission ≡ none)
      × ((tables_of (apply_provider_result now upload seen result t)).document ≡ t.document)
unfolding apply_provider_result apply_transition commit_result follow_up
apply_provider_result-missing now upload none result t e = (e, refl)
apply_provider_result-missing now upload (some seen) result t e = ground arith

apply_provider_result-counts :
    (now : ℕ) (upload : Upload) (seen : Option FiscalSubmission) (result : HaciendaSubmissionResult)
    (t : Tables)
    → (attempts (tables_of (apply_provider_result now upload seen result t)).submission
        ≡ attempts t.submission)
      × (posts (tables_of (apply_provider_result now upload seen result t)).events ≡ posts t.events)
unfolding apply_provider_result apply_transition commit_result follow_up
apply_provider_result-counts now upload none result t = (refl, refl)
apply_provider_result-counts now upload (some seen) result t = ground arith

pub apply_provider_result-Later :
    (now : ℕ) (upload : Upload) (seen : Option FiscalSubmission) (result : HaciendaSubmissionResult)
    (t : Tables)
    → Later t (tables_of (apply_provider_result now upload seen result t))
apply_provider_result-Later now upload seen result t =
    let (ea, ep) = apply_provider_result-counts now upload seen result t in
    elim (Option-cases t.submission) [
      | inl missing ↦
          let (e, ed) = apply_provider_result-missing now upload seen result t missing in
          Within-same t (tables_of (apply_provider_result now upload seen result t))
            (ap status_of (e ∙ sym missing)) ea ed ep
      | inr (row, found) ↦
          let (row', found', agree, keep) =
            apply_provider_result-terminal now upload seen result t row found in
          (
            Settled-as t (tables_of (apply_provider_result now upload seen result t)) row.status
                row'.status (ap status_of found) (ap status_of found') agree keep,
            omega arith,
          )
    ]

-- The tables that a step leaves, whether it throws or not.
abbrev pub left : {A : Type 0} → (A → Tables) → Result Tables A → Tables
left get (ok a) = get a
left get (err t) = t

pub >>=-Within :
    {A B : Type 0} (a b c : ℕ) (t : Tables) (get : A → Tables) (get' : B → Tables)
    (first : Result Tables A) (rest : A → Result Tables B)
    → Within a b t (left get first)
    → ((x : A) → Within c 0 (get x) (left get' (rest x)))
    → Within (a + c) b t (left get' (first >>= rest))
>>=-Within a b c t get get' (ok x) rest w ws =
    Within-weaken (a + c) (a + c) (b + 0) b t (left get' (rest x)) (omega arith)
      (Within-trans a b c 0 t (get x) (left get' (rest x)) w (ws x))
>>=-Within a b c t get get' (err t') rest w ws = Within-weaken a (a + c) b b t t' (omega arith) w

pub Later-refl : (t : Tables) → Later t t
Later-refl t = Within-same t t refl refl refl refl

pub Later-Within : (n : ℕ) (t t' t'' : Tables) → Later t t' → Within n 0 t' t'' → Within n 0 t t''
Later-Within n t t' t'' w w' =
    Within-weaken (0 + n) n 0 0 t t'' (omega arith) (Within-trans 0 0 n 0 t t' t'' w w')

pub Later-trans : (t t' t'' : Tables) → Later t t' → Later t' t'' → Later t t''
Later-trans t t' t'' w w' = Later-Within 0 t t' t'' w w'

-- Statements that send nothing more.
pub >>=-Later :
    {A B : Type 0} (n : ℕ) (t : Tables) (get : A → Tables) (get' : B → Tables)
    (first : Result Tables A) (rest : A → Result Tables B)
    → Within n 0 t (left get first)
    → ((x : A) → Later (get x) (left get' (rest x)))
    → Within n 0 t (left get' (first >>= rest))
>>=-Later n t get get' first rest w ws =
    Within-weaken (n + 0) n 0 0 t (left get' (first >>= rest)) (omega arith)
      (>>=-Within n 0 0 t get get' first rest w ws)

-- Both branches of a test.
pub if-Within :
    {A : Type 0} (a b : ℕ) (t : Tables) (get : A → Tables) (test : Bool) (x y : Result Tables A)
    → Within a b t (left get x)
    → Within a b t (left get y)
    → Within a b t (left get (if test then x else y))
if-Within a b t get true x y wx wy = wx
if-Within a b t get false x y wx wy = wy
