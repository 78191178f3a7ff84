-- ===== src/Voice/Mode.antt =====
-- conversation_mode.py of agent-host/src/reframe_agent_host/voice: the mode that the capture thread
-- and the turns share. The lock makes each method one step.
use reframe_web.Prelude.{
  All, ap, sym, subst, ◌∙◌, ℕ, ◌+◌, ◌≤◌, ◌≡◌, refl, Bool, true, false, List, [], ◌∷◌, arith,
  if◌then◌else◌,
}

-- `ConversationMode` of the BAML flow
pub data ConversationMode : Type 0 where
  wake_command continuous_conversation : ConversationMode

abbrev pub mode_eq : ConversationMode → ConversationMode → Bool
mode_eq wake_command wake_command = true
mode_eq continuous_conversation continuous_conversation = true
mode_eq _ _ = false

-- `ConversationModeController`
pub record Controller : Type 0 where
  pub mode : ConversationMode
  pub version : ℕ

abbrev pub create_controller : ConversationMode → Controller
create_controller mode = record { mode = mode; version = 0 }

abbrev pub snapshot : Controller → ConversationMode × ℕ
snapshot c = (c.mode, c.version)

unfoldable pub set_mode : Controller → ConversationMode → Controller × Bool
set_mode c mode =
    if mode_eq c.mode mode
    then (c, false)
    else (record { mode = mode; version = c.version + 1 }, true)

unfoldable pub turn_off_conversation : Controller → Controller × Bool
turn_off_conversation c = set_mode c wake_command

set_mode_lem :
    (c : Controller) (m : ConversationMode)
    → (set_mode c m).0.version ≤ c.version
    → (m ≡ c.mode) × ((set_mode c m).0 ≡ c)
unfolding set_mode
set_mode_lem c m h = (ground arith, ground arith)

-- The controller after some calls of `set`, whoever makes them.
unfoldable pub set_all : Controller → List ConversationMode → Controller
set_all c [] = c
set_all c (m ∷ ms) = set_all (set_mode c m).0 ms

version-set_all-le :
    (c : Controller) (ms : List ConversationMode) → c.version ≤ (set_all c ms).version
unfolding set_all set_mode
version-set_all-le c [] = omega arith
version-set_all-le c (m ∷ ms) = ground (arith, version-set_all-le (set_mode c m).0 ms)

-- A reader that finds the version unchanged has missed no change, not even one that was undone: every
-- call in between asked for the mode that was set already.
pub version_detects_changes :
    (c : Controller) (ms : List ConversationMode)
    → (set_all c ms).version ≡ c.version
    → All (λ m. m ≡ c.mode) ms × (set_all c ms ≡ c)
unfolding set_all
version_detects_changes c [] e = (tt, refl)
version_detects_changes c (m ∷ ms) e =
    let (same, kept) =
      set_mode_lem c m (omega (arith, e, version-set_all-le (set_mode c m).0 ms)) in
    let c1 : Controller = (set_mode c m).0 in
    let (all, end) = version_detects_changes c1 ms (e ∙ sym (ap (λ d. d.version) kept)) in
    ((same, subst (λ d. All (λ n. n ≡ d.mode) ms) kept all), end ∙ kept)
