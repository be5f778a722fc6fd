-- ===== src/Cmd/PauseSent.antt =====
-- `krennic pause` against the daemon that answers it.
use director_orson_callan_kr.Base.{
  ℕ, zero, suc, ◌+◌, ◌*◌, ◌<◌, Bytes, ◌≡◌, refl, Option, some, [], ◌++◌, ok, arith, ltb, ◌==◌,
  str_eq, utf8, pos, if◌then◌else◌,
}
use Prim.Native.Nat.{◌%◌}
use director_orson_callan_kr.Model.{Time}
use director_orson_callan_kr.Ai.Prompts.{decimal}
use director_orson_callan_kr.Config.Defs.{System}
use director_orson_callan_kr.Hub.Client.{Request}
use director_orson_callan_kr.Hub.Server.{limit_or}
use director_orson_callan_kr.Agent.Defs.{World, Agent, is_paused}
use director_orson_callan_kr.Agent.Http.{handler, handle_pause, seconds, pause_for}
use director_orson_callan_kr.Cmd.Http.{Call, Transport, daemon_base, post_url, itoa}
use director_orson_callan_kr.Cmd.Console.{Library, pause_cmd, pause_seconds, pause_line}

-- The daemon as a transport: its mux gets the request that net/http makes of a call.
abbrev pub daemon : {G : Type 0} → World G → Time → (Call → Request) → Transport (Agent G)
daemon w now parse call a = let (resp, a') = handler w now (parse call) a in (ok resp, a')

abbrev pub post_call : Bytes → Call
post_call url = record { method = utf8 "POST"; url = url; authorization = [] }

-- The seconds that the daemon takes for those it is asked for.
abbrev pub taken_seconds : ℕ → ℕ
taken_seconds n = if n == 0 then 3600 else n

module _ {G : Type 0} (w : World G) (now : Time) (a : Agent G) where
  handler-pause :
      (r : Request) → r.target ≡ utf8 "/api/pause" → handler w now r a ≡ handle_pause w now r a
  unfolding handler str_eq
  handler-pause r h = rw h refl

  taken_seconds-bound :
      (n : ℕ)
      → n * 1_000_000_000 < 9_223_372_036_854_775_808
      → taken_seconds n * 1_000_000_000 < 9_223_372_036_854_775_808
  taken_seconds-bound n small = ground arith

  limit_or-taken_seconds : (n : ℕ) → limit_or 3600 (some n) ≡ taken_seconds n
  unfolding limit_or
  limit_or-taken_seconds zero = refl
  limit_or-taken_seconds (suc n) = ground arith

  pause_for-paused_until :
      (m : ℕ)
      → m * 1_000_000_000 < 9_223_372_036_854_775_808
      → (pause_for w now (seconds m) a).paused_until ≡ now + m * 1_000_000_000
  unfolding pause_for seconds
  pause_for-paused_until m small =
      let exact : m * 1_000_000_000 % 18_446_744_073_709_551_616 ≡ m * 1_000_000_000 =
        omega arith in
      rw exact (ground arith)

  handle_pause-paused_until :
      (r : Request) (n : ℕ)
      → w.console.atoi (r.query (utf8 "seconds")) ≡ some n
      → n * 1_000_000_000 < 9_223_372_036_854_775_808
      → (handle_pause w now r a).1.paused_until ≡ now + taken_seconds n * 1_000_000_000
  unfolding handle_pause
  handle_pause-paused_until r n h small =
      rw (h, limit_or-taken_seconds n)
        (pause_for-paused_until (taken_seconds n) (taken_seconds-bound n small))

-- `krennic pause` pauses the daemon: it prints the seconds of the duration, and until so many
-- seconds behind the call, and not longer, the daemon is paused; but for a duration below a second,
-- for which 0 is printed, the daemon is paused for an hour. Net/http brings the path and the
-- parameter to the daemon, and the parameter is a number of seconds that fits into 63 bits of
-- nanoseconds.
pub pause_cmd-paused :
    {G : Type 0} (w : World G) (now : Time) (parse : Call → Request) (lib : Library) (sys : System)
    (path : Bytes) (arg : Option Bytes) (n : ℕ) (a : Agent G)
    → pause_seconds lib arg ≡ ok (pos n)
    → ((s : Bytes)
        → ((parse (post_call (daemon_base sys path ++ (utf8 "/api/pause?seconds=" ++ s)))).target
            ≡ utf8 "/api/pause")
          × ((parse (post_call (daemon_base sys path ++ (utf8 "/api/pause?seconds=" ++ s)))).query
                (utf8 "seconds")
              ≡ s))
    → w.console.atoi (decimal n) ≡ some n
    → n * 1_000_000_000 < 9_223_372_036_854_775_808
    → ((pause_cmd lib (daemon w now parse) sys path arg a).0 ≡ ok (pause_line (pos n)))
      × ((later : Time)
          → is_paused w later (pause_cmd lib (daemon w now parse) sys path arg a).1
            ≡ ltb later (now + taken_seconds n * 1_000_000_000))
unfolding pause_cmd post_url itoa
pause_cmd-paused w now parse lib sys path arg n a asked arrives reads small =
    let r = parse (post_call (daemon_base sys path ++ (utf8 "/api/pause?seconds=" ++ decimal n))) in
    let read : w.console.atoi (r.query (utf8 "seconds")) ≡ some n =
      rw (arrives (decimal n)).1 reads in
    (
      rw asked refl,
      λ later.
          rw
            (
              asked,
              handler-pause w now a r (arrives (decimal n)).0,
              handle_pause-paused_until w now a r n read small,
            )
            refl,
    )
