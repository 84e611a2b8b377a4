-- ===== src/Lifetime.antt =====
-- What the process holds of the system: the memory that malloc, strdup and new give, the descriptors
-- of socket, the streams of fopen, and the running threads. All these calls are taken to succeed.
-- This module has the calls themselves; Objects has the functions of src/ that make them.
pub mod Release
pub mod Objects
pub mod Course
pub mod Ends
pub mod Tests
use dns_server.Common.{
  ℕ, zero, suc, ◌+◌, Bool, false, Option, none, some, List, [], ◌∷◌, ◌==◌, if◌then◌else◌, Outcome,
  ok, crash, ◌>>=◌,
}
use mathlib.Core.Option

pub data Resource : Type 0 where
  block : ℕ → Resource
  descriptor : ℕ → Resource
  stream : ℕ → Resource
  thread : ℕ → Resource

unfoldable pub same : Resource → Resource → Bool
same (block a) (block b) = a == b
same (descriptor a) (descriptor b) = a == b
same (stream a) (stream b) = a == b
same (thread a) (thread b) = a == b
same _ _ = false

-- What is held, and the name of the next thing that the system gives: no name is given twice.
pub record Held : Type 0 where
  pub next : ℕ
  pub live : List Resource

-- A new thing of a kind: its name, and what is held with it.
abbrev pub acquire : (ℕ → Resource) → Held → ℕ × Held
acquire kind h = (h.next, record { next = h.next + 1; live = kind h.next ∷ h.live })

-- malloc, strdup and new
abbrev pub malloc : Held → ℕ × Held
malloc = acquire block

unfoldable pub take_out : Resource → List Resource → Option (List Resource)
take_out r [] = none
take_out r (x ∷ xs) =
    if same r x then some xs else Option.map (λ (l : List Resource). x ∷ l) (take_out r xs)

-- A call that gives back something that is not held: free and delete of such a block are undefined;
-- close and pthread_cancel return an error.
abbrev pub missing : Resource → Held → Outcome Held
missing (block p) h = crash
missing (descriptor d) h = ok h
missing (stream f) h = crash
missing (thread t) h = ok h

-- free, delete, close and pthread_cancel.
unfoldable pub release : Resource → Held → Outcome Held
release r h = elim (take_out r h.live) [ some l ↦ ok (record h { live = l }) | none ↦ missing r h ]

-- Such calls one after the other, whose results are not looked at.
unfoldable pub release_all : List Resource → Held → Outcome Held
release_all [] h = ok h
release_all (r ∷ rs) h = release r h >>= release_all rs

-- What a pointer that may be NULL holds: free(NULL) does nothing.
abbrev pub pointed : Option ℕ → List Resource
pointed none = []
pointed (some p) = block p ∷ []

-- `realloc`. The block may move, and a size of 0 frees it, as the GNU library documents.
unfoldable pub realloc : Option ℕ → ℕ → Held → Outcome (Option ℕ × Held)
realloc none size h = let (p, h₁) = malloc h in ok (some p, h₁)
realloc (some p) zero h = release (block p) h >>= (λ h₁. ok (none, h₁))
realloc (some p) (suc size) h =
    release (block p) h >>= (λ h₁. let (q, h₂) = malloc h₁ in ok (some q, h₂))
