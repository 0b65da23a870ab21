-- ===== src/Crypto.antt =====
-- crypto/aes-gcm.ts
pub mod AesGcm
