-- ===== src/Requests/Tests.antt =====
-- Requests to an allocator that has not made a page yet, and to one that knows the mutex "a".
use text.Mathlib.TextEquality.{eq_iff}
use garnd.Prelude.{◌≡◌, refl, [], ◌∷◌, String, arith, lookup}
use garnd.Io.{Call, done, Ensures}
use garnd.Io.Samples.{working}
use garnd.Protocols.{unwrap_or_report_failure}
use garnd.Protocols.Samples.{garnshared}
use garnd.Shm.{ShmAllocator, find_resource, ClientResourceLocation}
use garnd.Shm.Construct.{metadata}
use garnd.Shm.Invariant.{IsValid}
use garnd.Shm.Lookup.{find_resource-Constructed}
use garnd.Requests.{handle_open_mutex, location_or_new, or_report, share, serve_client}
use garnd.Requests.Kept.{AllMutexes, Knows}
use garnd.Requests.Granting.{Consistent, Session-Consistent}
use garnd.Requests.Registry.{spot, registry, Opens, Declines, handle_open_mutex-Opens}
use garnd.Requests.Session.{Grant, Session, begin, granted}
use garnd.Requests.Shared.{Sent, Shared, Failed, handle_open_mutex-Shared, handle_open_mutex_shares}
use garnd.Requests.Client.{Answered, serve_client_answers}

abbrev fresh : ShmAllocator
fresh = record { resources = []; page_size = 4096; pages = []; free_ptr = 0 }

fresh-IsValid : IsValid fresh
fresh-IsValid = omega arith

handle_open_mutex-Shared_example :
    Ensures
      (λ _ s u. Shared fresh "a" 9 [] s u)
      (Failed fresh 9 [])
      (handle_open_mutex "a" 9 fresh [])
handle_open_mutex-Shared_example =
    handle_open_mutex-Shared fresh "a" 9 [] fresh-IsValid (omega arith)

serve_client_answers_example :
    Ensures (Answered fresh 9 [] 1) (Answered fresh 9 [] 1) (serve_client 9 fresh [])
serve_client_answers_example = serve_client_answers 9 fresh [] fresh-IsValid (omega arith) refl

abbrev known : ShmAllocator
known = record {
  resources = ("a", metadata garnshared.pthread_mutex 0 0) ∷ [];
  page_size = 4096;
  pages = record { fd = 3; mem = 65536 } ∷ [];
  free_ptr = 40;
}

abbrev its_location : ClientResourceLocation
its_location = record { page = 0; offset = 0; fd = 3 }

known-Knows : Knows known "a" its_location
known-Knows u =
    find_resource-Constructed known known garnshared.pthread_mutex "a" its_location u (record {
      valid = omega arith;
      registered = unfold lookup in refl;
      on_page = (record { fd = 3; mem = 65536 }, refl, refl);
      others = λ j ne. refl;
      more_pages = ([], refl);
    })

handle_open_mutex_shares_example :
    Ensures
      (λ _ s u. Knows s "a" its_location × (◌≡◌ {A = String} "a" "a" → Sent 9 its_location u))
      (λ _ s _. Knows s "a" its_location)
      (handle_open_mutex "a" 9 known [])
handle_open_mutex_shares_example =
    handle_open_mutex_shares known "a" "a" its_location 9 [] (omega arith) (omega arith) known-Knows

-- An allocator with the mutexes "a" and "b": the clients 7 and 8 ask for "a", and 9 for "b".
abbrev two_known : ShmAllocator
two_known = record {
  resources =
      ("a", metadata garnshared.pthread_mutex 0 0)
      ∷ ("b", metadata garnshared.pthread_mutex 0 40)
      ∷ [];
  page_size = 4096;
  pages = record { fd = 3; mem = 65536 } ∷ [];
  free_ptr = 80;
}

abbrev grant_of : String → Grant
grant_of name = record { name = name; text = "response"; fd = 3 }

session : Session two_known [] (grant_of "b" ∷ grant_of "a" ∷ grant_of "a" ∷ []) two_known (
    (Call.send_with_fd 9 "response" 3, done 5)
    ∷ (Call.send_with_fd 8 "response" 3, done 4)
    ∷ (Call.send_with_fd 7 "response" 3, done 3)
    ∷ [])
unfolding handle_open_mutex location_or_new or_report share find_resource unwrap_or_report_failure
    lookup
session =
    granted (grant_of "b") 9 5
      (granted (grant_of "a") 8 4 (granted (grant_of "a") 7 3 begin refl) refl) refl

two_known-AllMutexes : AllMutexes two_known
unfolding lookup
two_known-AllMutexes name r e = ground (arith, eq_iff "a" name, eq_iff "b" name)

Session-Consistent_example : Consistent (grant_of "b" ∷ grant_of "a" ∷ grant_of "a" ∷ [])
Session-Consistent_example =
    Session-Consistent {shm = two_known} {t = []} (omega arith) (omega arith) two_known-AllMutexes
      session

handle_open_mutex-Opens_example :
    Ensures
      (λ _ s u.
        (l : ClientResourceLocation) × Opens "c" (spot l) (registry two_known) (registry s)
        × Sent 9 l u)
      (λ _ s _. Declines "c" (registry two_known) (registry s))
      (handle_open_mutex "c" 9 two_known [])
handle_open_mutex-Opens_example =
    handle_open_mutex-Opens two_known "c" 9 (omega arith) (omega arith) []
