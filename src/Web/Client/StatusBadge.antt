-- ===== src/Web/Client/StatusBadge.antt =====
-- apps/web/src/components/IntegrationStatus.tsx: `useIntegrationStatus` and the badge of an integration.
use clawback.Prelude.{
  ◌≡◌, refl, Text, Bool, true, false, Option, none, some, List, [], ◌∷◌, lit, if◌then◌else◌,
}
use clawback.Web.Config.{ComponentStatus, IntegrationStatus}
use clawback.Web.Client.Display.{network_label}

-- The state of the hook in one component, and what its effect's closure holds.
pub record StatusHook : Type 0 where
  pub status : Option IntegrationStatus
  pub cancelled : Bool

unfoldable pub mounted : StatusHook
mounted = record { status = none; cancelled = false }

-- What happens to a mounted hook: the answer of /api/status, a failure of the request, or the end of the component.
pub data HookEvent : Type 0 where
  status_read : IntegrationStatus → HookEvent
  request_failed unmounted : HookEvent

unfoldable pub hook_step : HookEvent → StatusHook → StatusHook
hook_step (status_read s) h = if h.cancelled then h else record h { status = some s }
hook_step request_failed h = h
hook_step unmounted h = record h { cancelled = true }

unfoldable pub hook_run : List HookEvent → StatusHook → StatusHook
unfolding hook_step
hook_run [] h = h
hook_run (e ∷ es) h = hook_run es (hook_step e h)

-- Which of the three integrations a badge is for.
pub data Component : Type 0 where
  compute storage chain : Component

abbrev component_status : Component → IntegrationStatus → ComponentStatus
component_status compute s = s.compute
component_status storage s = s.storage
component_status chain s = s.chain

abbrev badge_at : Option ComponentStatus → Text × Bool
badge_at none = (lit "Checking", false)
badge_at (some s) = (network_label s, s.configured)

abbrev of_component : Component → Option IntegrationStatus → Option ComponentStatus
of_component c none = none
of_component c (some s) = some (component_status c s)

-- `PremiumStatusBadge`: its text, and whether it has the colours of a live integration.
unfoldable pub premium_status_badge : Component → Option IntegrationStatus → Text × Bool
premium_status_badge c status = badge_at (of_component c status)

-- Once its component is gone, nothing changes what the hook holds.
pub hook_run-unmounted :
    (es : List HookEvent) (h : StatusHook) → (hook_run es (hook_step unmounted h)).status ≡ h.status
unfolding hook_run hook_step
hook_run-unmounted [] h = refl
hook_run-unmounted (status_read s ∷ es) h = hook_run-unmounted es h
hook_run-unmounted (request_failed ∷ es) h = hook_run-unmounted es h
hook_run-unmounted (unmounted ∷ es) h = hook_run-unmounted es h

-- A badge has the colours of a live integration only where the server has said that the integration is configured.
pub live_badge :
    (c : Component) (status : Option IntegrationStatus)
    → (premium_status_badge c status).1 ≡ true
    → (s : IntegrationStatus) × (status ≡ some s) × ((component_status c s).configured ≡ true)
unfolding premium_status_badge
live_badge c none h = cc h
live_badge c (some s) h = (s, refl, h)
