-- ===== src/Scope/Listener.antt =====
-- scope/listener.hpp and the part of scope/listener.cpp that all its backends share: the published state,
-- `publish_and_log`, and the start and the stop of the thread. A `const char*` that may be null is an
-- option.
pub mod Published
pub mod Lifetime
pub mod Hyprland
pub mod Kwin
pub mod Plasma
pub mod X11
pub mod Thread
use loginext.Env.{nonempty}
use loginext.Prelude.{
  ℕ, Bool, true, false, ◌==◌, if◌then◌else◌, Option, none, some, ℤ, negsuc, is_negative, List, [],
  ◌∷◌, ◌++◌, take, Bytes, codes,
}

-- The mutex is left out: what it guards is written and read as a whole.
pub record Listener : Type 0 where
  pub active_app_hash : ℕ
  pub stop : Bool
  pub wake_read : ℤ
  pub wake_write : ℤ
  pub started : Bool
  pub intro_name : Bytes
  pub intro_source : Bytes
  pub kwin_received_any : Bool

-- `Listener{}`
abbrev pub fresh : Listener
fresh = record {
  active_app_hash = 0;
  stop = false;
  wake_read = negsuc 0;
  wake_write = negsuc 0;
  started = false;
  intro_name = [];
  intro_source = [];
  kwin_received_any = false;
}

-- The line that is logged: none, the loss of focus, or the focus with its hash, and the text that a
-- rule is looked up by.
pub data Logged : Type 0 where
  silent no_focus : Logged
  focused : ℕ → Bytes → Logged

-- `instance` if it is a text that is not empty, else `klass` if it is, else the empty text.
abbrev pub first_text : Option Bytes → Option Bytes → Bytes
first_text (some (c ∷ s)) klass = c ∷ s
first_text _ none = []
first_text _ (some klass) = klass

abbrev pub intro_name_max : ℕ
intro_name_max = 127

abbrev pub intro_source_max : ℕ
intro_source_max = 15

unfoldable pub publish_and_log :
    Listener → ℕ → Bytes → Option Bytes → Option Bytes → Listener × Logged
publish_and_log l h src instance_name klass =
    let l' = record l {
      intro_name = take intro_name_max (first_text instance_name klass);
      intro_source = take intro_source_max src;
      active_app_hash = h;
    } in
    if l.active_app_hash == h
    then (l', silent)
    else (l', if h == 0 then no_focus else focused h (first_text instance_name klass))

pub data Request : Type 0 where
  pipe : ℤ → ℤ → Request
  create_thread join_thread wake : Request
  close : ℤ → Request

-- What `pipe2` gives, and whether `pthread_create` succeeds.
pub record Answers : Type 0 where
  pub pipe : Option (ℤ × ℤ)
  pub created : Bool

abbrev pub no_pipe : Listener → Listener
no_pipe l = record l { wake_read = negsuc 0; wake_write = negsuc 0 }

-- The part of `start` behind the pipe
abbrev pub start_thread : Listener → ℤ → ℤ → Bool → Listener × Bool × List Request
start_thread l r w true = (
  record l { wake_read = r; wake_write = w; stop = false; started = true },
  true,
  pipe r w ∷ create_thread ∷ [],
)
start_thread l r w false =
    (record (no_pipe l) { stop = false }, false, pipe r w ∷ close r ∷ close w ∷ [])

-- The flag is true for a return code of 0.
unfoldable pub start : Listener → Answers → Listener × Bool × List Request
start l a = elim a.pipe [ none ↦ (l, false, []) | some (r, w) ↦ start_thread l r w a.created ]

abbrev pub close_end : ℤ → List Request
close_end fd = if is_negative fd then [] else close fd ∷ []

unfoldable pub stop_listener : Listener → Listener × List Request
stop_listener l =
    if l.started
    then (
      record (no_pipe l) { stop = true; started = false },
      (if is_negative l.wake_write then [] else wake ∷ [])
          ++ join_thread ∷ []
          ++ close_end l.wake_read
          ++ close_end l.wake_write,
    )
    else (l, [])
