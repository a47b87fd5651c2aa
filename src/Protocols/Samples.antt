-- ===== src/Protocols/Samples.antt =====
-- Protocols for the tests: a request is one byte, 0 for the mutex "a", any other for the mutex "b",
-- and 255 is malformed.
use garnd.Prelude.{ℕ, String, List, [], ◌∷◌, ◌==◌, if◌then◌else◌}
use garnd.Io.{Reply, done, failed}
use garnd.Protocols.{EnvironmentResponse, WelcomeResponse, Garnshared, open_mutex, open_environment}

abbrev text_of : List ℕ → Reply String
text_of [] = done "a"
text_of (b ∷ _) = if b == 255 then failed 1 else (if b == 0 then done "a" else done "b")

instance abbrev pub garnshared : Garnshared
garnshared = record {
  environment = record {
    max_size = 16;
    from_utf8 = text_of;
    deserialize = λ s. done (open_mutex s);
    serialize = λ r. done "response";
    malformed_request = EnvironmentResponse.malformed_request;
    serialize_internal_error = "internal error";
  };
  welcome = record {
    max_size = 16;
    from_utf8 = text_of;
    deserialize = λ s. done (open_environment s);
    serialize = λ r. done "response";
    malformed_request = WelcomeResponse.malformed_request;
    serialize_internal_error = "internal error";
  };
  pthread_mutex = record { uuid = 7; size = 40; align = 8; name = "PthreadMutex" };
}
