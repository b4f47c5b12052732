-- ===== src/Web.antt =====
-- The API process (app/main.py): its startup, the identity and the limit of its clients, the cached
-- statistics, and the answers of its endpoints. What FastAPI does with an answer or an
-- `HTTPException` is not modelled.
pub mod Startup
pub mod Lifespan
pub mod Clients
pub mod Forged
pub mod Stats
pub mod Api
pub mod Served
pub mod Streams
mod Tests
