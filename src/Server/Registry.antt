-- ===== src/Server/Registry.antt =====
-- The registry of internal/server/session.go and the store of store.go: maps by id, as association
-- lists without repeated ids, whose order stands for the map's unspecified one.
use cribbager.Common.{
  Text, text_eq, ℕ, ◌-◌, Bool, true, false, ◌&&◌, not, List, [], ◌∷◌, Option, none, some, length,
  leb, ltb, if◌then◌else◌,
}
use cribbager.Server.Session.{Session, Record, has_subscribers}

abbrev pub max_sessions : ℕ
max_sessions = 5000

-- `get`
unfoldable pub find_session : List Session → Text → Option Session
find_session [] id = none
find_session (s ∷ ss) id = if text_eq s.id id then some s else find_session ss id

-- What a handler leaves in the session that it holds a pointer to.
unfoldable pub put_session : List Session → Session → List Session
put_session [] s = []
put_session (t ∷ ts) s = if text_eq t.id s.id then s ∷ ts else t ∷ put_session ts s

-- `r.sessions[s.id] = s`
unfoldable pub set_session : List Session → Session → List Session
set_session [] s = s ∷ []
set_session (t ∷ ts) s = if text_eq t.id s.id then s ∷ ts else t ∷ set_session ts s

-- `add`: the registry, and whether there was room.
unfoldable pub add_session : List Session → Session → List Session × Bool
unfolding set_session
add_session reg s =
    if leb max_sessions (length reg) then (reg, false) else (set_session reg s, true)

-- A session that nobody watches and nobody has touched for longer than `ttl`.
unfoldable pub stale : ℕ → ℕ → Session → Bool
stale ttl now s = not (has_subscribers s) && ltb ttl (now - s.last_seen)

-- `reap`: what is left, and the ids that are gone.
unfoldable pub reap_sessions : ℕ → ℕ → List Session → List Session × List Text
unfolding stale
reap_sessions ttl now [] = ([], [])
reap_sessions ttl now (s ∷ ss) =
    let (kept, gone) = reap_sessions ttl now ss in
    if stale ttl now s then (kept, s.id ∷ gone) else (s ∷ kept, gone)

-- `MemStore.Save`
unfoldable pub save_record : List Record → Record → List Record
save_record [] r = r ∷ []
save_record (t ∷ ts) r = if text_eq t.id r.id then r ∷ ts else t ∷ save_record ts r

-- `MemStore.Delete`
unfoldable pub delete_record : List Record → Text → List Record
delete_record [] id = []
delete_record (t ∷ ts) id = if text_eq t.id id then ts else t ∷ delete_record ts id

unfoldable pub delete_records : List Record → List Text → List Record
unfolding delete_record
delete_records store [] = store
delete_records store (id ∷ ids) = delete_records (delete_record store id) ids
