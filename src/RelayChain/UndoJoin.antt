-- ===== src/RelayChain/UndoJoin.antt =====
-- UnHandleJoin after HandleJoin.
use flex.Common.{
  ℕ, zero, suc, ◌+◌, ◌%◌, ◌≤◌, ◌<◌, Bool, true, false, ◌≡◌, refl, none, some, [], ◌∷◌, arith,
  length, All, ltb, ◌==◌, if◌then◌else◌, ==_refl,
}
use flex.Exceptions.{ok}
use flex.StdMap.{Map, lookup, put}
use flex.StdMap.Laws.{lookup-put, erase-put, erase_absent, length-put_new}
use flex.RelayState.{
  RelayState, add_relay, enrol, trim_relays, remove_relay, erase_relay,
  remove_relay_from_successors, predecessors, erase_each, get_join_hash,
}
use flex.RelayState.Numbering.{find_number}
use flex.RelayState.Platform.{Env, Point, u32_mod}
use flex.RelayChain.{Data, RelayStateChain, RelayJoinMessage, join, read_join}
use flex.RelayChain.Handlers.{handle_join, unhandle_join}
use flex.RelayChain.Validation.{validate_join, validate_as, validate_message}
use flex.RelayChain.Batch.{handle_as, unhandle_as}
use flex.RelayChain.Undo.{IsUndone, IsUndone-as}

-- No entry of the map has the value.
abbrev pub Lacks : ℕ → Map ℕ → Type 0
Lacks value m = All (λ entry. (entry.1 == value) ≡ false) m

find_number-put :
    (missing value key : ℕ) (m : Map ℕ)
    → Lacks value m
    → find_number missing value (put key value m) ≡ key
unfolding find_number put
find_number-put missing value key [] h = ground arith
find_number-put missing value key ((j, w) ∷ m) h =
    ground (arith, find_number-put missing value key m h.1)

predecessors-lacks : (value : Point) (m : Map Point) → Lacks value m → predecessors value m ≡ []
unfolding predecessors
predecessors-lacks value [] h = refl
predecessors-lacks value ((j, w) ∷ m) h = ground (arith, predecessors-lacks value m h.1)

trim_relays_fits :
    (env : Env) (fuel : ℕ) (s : RelayState)
    → length s.relays ≤ env.max_relays_remembered
    → trim_relays env fuel s ≡ ok s
unfolding trim_relays
trim_relays_fits env zero s h = ground arith
trim_relays_fits env (suc fuel) s h = ground arith

-- The state says nothing of the key.
pub record IsNew (point : Point) (s : RelayState) : Type 0 where
  pub no_line : lookup point s.line_of_succession ≡ none
  pub no_actual : lookup point s.actual_successions ≡ none
  pub no_msgs : lookup point s.subthreshold_succession_msgs ≡ none
  pub no_disqualification : lookup point s.disqualifications ≡ none
  pub no_predecessor : Lacks point s.line_of_succession
  pub no_join : Lacks point s.join_hash_to_relay

-- The state after a join whose relay follows another, or none.
abbrev joined : Bool → Point → Point → ℕ → RelayState → RelayState
joined follows point before hash s =
    let enrolled = enrol point hash s in
    if follows
    then record enrolled { line_of_succession = put point before enrolled.line_of_succession }
    else enrolled

remove_relay-joined :
    (follows : Bool) (point before : Point) (hash : ℕ) (s : RelayState)
    → IsNew point s
    → lookup point s.relays ≡ none
    → lookup hash s.join_hash_to_relay ≡ none
    → s.latest_relay_number + 1 < u32_mod
    → remove_relay point true (joined follows point before hash s) ≡ ok s
unfolding remove_relay remove_relay_from_successors erase_relay get_join_hash enrol
remove_relay-joined true point before hash s v new fresh h =
    let number : ℕ = (s.latest_relay_number + 1) % u32_mod in
    rw
      (
        lookup-put point point number s.relays,
        ==_refl point,
        find_number-put 0 point hash s.join_hash_to_relay v.no_join,
        erase-put hash point s.join_hash_to_relay fresh,
        erase-put point number s.relays new,
        erase-put point before s.line_of_succession v.no_line,
        predecessors-lacks point s.line_of_succession v.no_predecessor,
        erase_absent point s.actual_successions v.no_actual,
        erase_absent point s.subthreshold_succession_msgs v.no_msgs,
        erase_absent point s.disqualifications v.no_disqualification,
      )
      (unfold erase_each in ground arith)
remove_relay-joined false point before hash s v new fresh h =
    let number : ℕ = (s.latest_relay_number + 1) % u32_mod in
    rw
      (
        lookup-put point point number s.relays,
        ==_refl point,
        find_number-put 0 point hash s.join_hash_to_relay v.no_join,
        erase-put hash point s.join_hash_to_relay fresh,
        erase-put point number s.relays new,
        erase_absent point s.line_of_succession v.no_line,
        predecessors-lacks point s.line_of_succession v.no_predecessor,
        erase_absent point s.actual_successions v.no_actual,
        erase_absent point s.subthreshold_succession_msgs v.no_msgs,
        erase_absent point s.disqualifications v.no_disqualification,
      )
      (unfold erase_each in ground arith)

handle_join-joined :
    (d : Data) (env : Env) (hash : ℕ) (msg : RelayJoinMessage) (c : RelayStateChain)
    → d.joins hash ≡ some msg
    → validate_join d hash c ≡ true
    → lookup (d.point_of_number msg.relay_number) c.state.relays ≡ none
    → length c.state.relays < env.max_relays_remembered
    → handle_join d env hash c
      ≡ ok (record c {
        state =
            joined
              (ltb 0 msg.preceding_relay_join_hash)
              msg.relay_pubkey
              (read_join d msg.preceding_relay_join_hash).relay_pubkey
              hash
              c.state;
      })
handle_join-joined d env hash msg c e accepted free room =
    let number : (msg.relay_number == (1 + c.state.latest_relay_number) % u32_mod) ≡ true =
      unfold validate_join in ground (arith, accepted, e) in
    let new : lookup msg.relay_pubkey c.state.relays ≡ none =
      unfold validate_join in ground (arith, accepted, e) in
    let enrolled : RelayState = enrol msg.relay_pubkey hash c.state in
    let fits : length enrolled.relays ≤ env.max_relays_remembered =
      unfold enrol in
      omega (
        arith,
        length-put_new msg.relay_pubkey ((c.state.latest_relay_number + 1) % u32_mod) c.state.relays
            new,
      ) in
    unfold handle_join add_relay in
    rw
      (
        e,
        handle_join,
        free,
        number,
        new,
        trim_relays_fits env (length enrolled.relays) enrolled fits,
      )
      (ground arith)

-- A join that ValidateMessage accepts, of a relay of which the state says nothing, is undone, where
-- fewer than MAX_RELAYS_REMEMBERED relays and fewer than 2^32 - 1 numbers are in use, the message was
-- not handled, and the key that the relay's number converts to is no relay.
pub join-IsUndone :
    (d : Data) (env : Env) (hash : ℕ) (msg : RelayJoinMessage) (c : RelayStateChain)
    → d.message_type hash ≡ join
    → d.joins hash ≡ some msg
    → lookup hash c.handled_messages ≡ none
    → validate_message d env hash c ≡ some true
    → IsNew msg.relay_pubkey c.state
    → lookup (d.point_of_number msg.relay_number) c.state.relays ≡ none
    → length c.state.relays < env.max_relays_remembered
    → c.state.latest_relay_number + 1 < u32_mod
    → IsUndone d env hash c
join-IsUndone d env hash msg c type e fresh accepted v free room numbers =
    let ok_join : validate_join d hash c ≡ true =
      unfold validate_message validate_as in ground (arith, accepted, type) in
    let new : lookup msg.relay_pubkey c.state.relays ≡ none =
      unfold validate_join in ground (arith, ok_join, e) in
    let unknown : lookup hash c.state.join_hash_to_relay ≡ none =
      unfold validate_join in ground (arith, ok_join, e) in
    let before : Point = (read_join d msg.preceding_relay_join_hash).relay_pubkey in
    let follows : Bool = ltb 0 msg.preceding_relay_join_hash in
    IsUndone-as d env hash join c
      (record c { state = joined follows msg.relay_pubkey before hash c.state }) type fresh refl
      (unfold handle_as in handle_join-joined d env hash msg c e ok_join free room)
      (λ h p.
        unfold unhandle_as unhandle_join read_join in
        rw (
          p,
          e,
          remove_relay-joined follows msg.relay_pubkey
              (read_join d msg.preceding_relay_join_hash).relay_pubkey hash c.state v new unknown
              numbers,
        ))
