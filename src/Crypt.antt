-- ===== src/Crypt.antt =====
-- nsca_utils.cpp and nsca_utils.h: struct crypt_instance, encrypt_init, encrypt_cleanup,
-- encrypt_buffer and decrypt_buffer. libmcrypt is a parameter; a buffer is the list of the
-- `buffer_size` bytes that a call names, and a C string the list of its bytes without the NUL.
pub mod Mcrypt
pub mod Random
pub mod Secure
pub mod Buffer
pub mod Init
mod Tests
