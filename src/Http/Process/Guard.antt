-- ===== src/Http/Process/Guard.antt =====
-- Who may run a handler.
use audio_tool_api.Prelude.{◌≡◌, Bool, true, false, Option, none, some, Bytes}
use audio_tool_api.Http.Process.{Exit, Handler}

abbrev pub threw : {S : Type 0} → Exit S → Bool
threw (s, none) = false
threw (s, some thrown) = true

module _ {S J : Type 0} where
  -- The request has no token, or no state of the handler finds a user for it.
  abbrev pub IsRefused : Handler S J → Option Bytes → Type 0
  IsRefused h none = Unit
  IsRefused h (some token) = (s : S) → threw (h.fill_by_token token s) ≡ true

  -- The handlers agree on who is let in, and on nothing else.
  pub record SameGuard (h h' : Handler S J) : Type 0 where
    pub requires : h.requires_authentication ≡ true
    pub requires' : h'.requires_authentication ≡ true
    pub fills : (token : Bytes) (s : S) → h.fill_by_token token s ≡ h'.fill_by_token token s
