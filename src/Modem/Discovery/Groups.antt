-- ===== src/Modem/Discovery/Groups.antt =====
-- internal/modem/discovery.go: the ports that are grouped by their device, and the sorting.
-- sort.Slice leaves the order of ports with equal numbers open; here they keep theirs.
use abb_app.Base.{Option, none, some, List, [], ◌∷◌, ◌++◌, map, if◌then◌else◌}
use abb_app.Base.Text.{Text, text_eq, trim_space, to_lower}
use abb_app.Modem.Discovery.{
  Sysfs, Tty, missing, unreadable, names, Candidate, Port, less, ports_of,
}
use abb_app.Modem.Discovery.Order.{text_lt}

-- An entry of `groups` with that of `ports`.
pub record Group : Type 0 where
  pub key : Text
  pub vid_pid : Text
  pub members : List Port

-- groups[key] is made if it is not there, and ports[key] is appended to.
unfoldable pub add_port : Port → List Group → List Group
add_port p [] = record { key = p.key; vid_pid = p.vid_pid; members = p ∷ [] } ∷ []
add_port p (g ∷ gs) =
    if text_eq g.key p.key
    then record g { members = g.members ++ p ∷ [] } ∷ gs
    else g ∷ add_port p gs

unfoldable pub add_ports : List Port → List Group → List Group
unfolding add_port
add_ports [] gs = gs
add_ports (p ∷ ps) gs = add_ports ps (add_port p gs)

unfoldable pub insert_port : Port → List Port → List Port
unfolding less
insert_port p [] = p ∷ []
insert_port p (q ∷ qs) = if less q.iface p.iface then q ∷ insert_port p qs else p ∷ q ∷ qs

unfoldable pub sort_ports : List Port → List Port
unfolding insert_port
sort_ports [] = []
sort_ports (p ∷ ps) = insert_port p (sort_ports ps)

unfoldable pub candidate_of : Group → Candidate
unfolding sort_ports
candidate_of g = record {
  usb_path = g.key;
  vid_pid = g.vid_pid;
  ports = map (λ (p : Port). p.dev) (sort_ports g.members);
}

unfoldable pub insert_candidate : Candidate → List Candidate → List Candidate
insert_candidate c [] = c ∷ []
insert_candidate c (d ∷ ds) =
    if text_lt d.usb_path c.usb_path then d ∷ insert_candidate c ds else c ∷ d ∷ ds

-- The loop over `groups` and the sorting of the result.
unfoldable pub candidates_of : List Group → List Candidate
unfolding candidate_of insert_candidate
candidates_of [] = []
candidates_of (g ∷ gs) = insert_candidate (candidate_of g) (candidates_of gs)

unfoldable pub listed : Sysfs → Text → List Text → Tty → Option (List Candidate)
unfolding candidates_of add_ports
listed s dev_root allowed missing = some []
listed s dev_root allowed unreadable = none
listed s dev_root allowed (names ns) =
    some (candidates_of (add_ports (ports_of s dev_root allowed ns) []))

-- Discover; `none` is an error.
unfoldable pub discover : Sysfs → Text → List Text → Option (List Candidate)
unfolding listed
discover s dev_root usb_ids = listed s dev_root (map (λ id. to_lower (trim_space id)) usb_ids) s.tty
