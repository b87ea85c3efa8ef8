-- ===== src/Client/Served.antt =====
-- A call of the client, served by the server.
use qdocdb.Prelude.{ℕ, ◌⊎◌, ◌≢◌, ◌++◌, [], none, some, ◌≡◌, List, ◌∷◌}
use qdocdb.Server.{Request, Message, Server}
use qdocdb.Server.Receive as Receive
use qdocdb.Client.{Client, Input, received}
use qdocdb.Client.Calls.{success, error, error_of, ask}

-- A call of the client that ends with a message among its inputs.
abbrev pub IsServed : (ℕ → Request) → Message → List Input → List Input → Client → Type 0
IsServed request m pre post c =
    let ((status, body), rest, c') = ask request (pre ++ received m ∷ post) c in
    (rest ≡ post)
    × (((error_of (some m) ≡ []) × (status ≡ success) × (body ≡ some m.body))
        ⊎ ((error_of (some m) ≢ [])
            × (status ≡ error)
            × (body ≡ none)
            × (c'.last_error ≡ error_of (some m))))
